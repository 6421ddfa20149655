-- ===== src/Walker/Tests.antt =====
-- internal/walker/walker/walk.go on a mesh of three nodes.
use mesh_manager.Common.{
  ◌≡◌, ◌↔◌, ap, ◌==◌, ℕ, if◌then◌else◌, refl, List, [], ◌∷◌, Option, none, some, Bytes, codes,
  equal, has_prefix, to_upper, arith, true, false,
}
use mesh_manager.Walker.{
  Walk, array_contains, contains_or_set, has_suffix, mid_rest, is_mid, passed_over, visit_host,
  begin_task, end_task, no_walk, start_walk,
}
use mesh_manager.Walker.Steps.{begins, visits, ends, Steps, stays, goes_on}
use mesh_manager.Walker.Steps.Once.{Tally, start_walk-Tally}
use mesh_manager.Walker.Retry.{Attempt, no_answer, responded, response, read_body, get, attempts}
use mesh_manager.Walker.Retry.First.{get-first}
use mesh_manager.Walker.Steps.Reach.{Reaches, start_walk_complete}

lan_passed_over : passed_over (codes "lan.node.local.mesh") ≡ true
unfolding passed_over has_suffix has_prefix is_mid mid_rest equal
lan_passed_over = refl

mid_passed_over : passed_over (codes "mid12.node") ≡ true
unfolding passed_over has_suffix has_prefix is_mid mid_rest equal
mid_passed_over = refl

name_visited : passed_over (codes "mid.node") ≡ false
unfolding passed_over has_suffix has_prefix is_mid mid_rest equal
name_visited = refl

-- The starting node lists two others, one of them twice.
abbrev answer : Option (List Bytes)
answer = some (codes "b" ∷ codes "c" ∷ codes "B" ∷ [])

abbrev first : Walk
first = record no_walk { visiting = (codes "b" ∷ codes "c" ∷ codes "B" ∷ []) ∷ [] }

begun : start_walk answer ≡ some first
unfolding start_walk
begun = refl

-- Its first two hosts are visited.
abbrev one : Walk
one = visit_host (codes "b") (record first { visiting = (codes "c" ∷ codes "B" ∷ []) ∷ [] })

abbrev two : Walk
two = visit_host (codes "c") (record one { visiting = (codes "B" ∷ []) ∷ [] })

-- The second task begins before the loop of the starting node is done, and has no answer.
abbrev three : Walk
three = begin_task (codes "c") none (record two { waiting = codes "b" ∷ [] })

three_steps : Steps first 1 three
unfolding visit_host contains_or_set array_contains passed_over has_suffix has_prefix is_mid
    mid_rest equal to_upper
three_steps =
    goes_on two three
      (goes_on one two
        (goes_on first one stays (visits [] [] (codes "b") (codes "c" ∷ codes "B" ∷ []) refl))
        (visits [] [] (codes "c") (codes "B" ∷ []) refl))
      (begins (codes "b" ∷ []) [] (codes "c") none refl)

start_walk-Tally_example : Tally 1 three
start_walk-Tally_example = start_walk-Tally answer first three 1 begun three_steps

-- The node `b` lists a further one; the others do not answer.
abbrev by_upper : Bytes → Option (List Bytes)
by_upper x = if equal x (codes "B") then some (codes "C" ∷ codes "d" ∷ []) else none

abbrev mesh : Bytes → Option (List Bytes)
mesh name = by_upper (to_upper name)

-- The task for `b` begins, and its loop takes turns with that of the starting node.
abbrev four : Walk
four = begin_task (codes "b") (mesh (codes "b")) (record three { waiting = [] })

abbrev five : Walk
five =
    visit_host (codes "C")
      (record four { visiting = (codes "d" ∷ []) ∷ ([] ∷ ((codes "B" ∷ []) ∷ [])) })

abbrev six : Walk
six = visit_host (codes "B") (record five { visiting = (codes "d" ∷ []) ∷ ([] ∷ ([] ∷ [])) })

abbrev seven : Walk
seven = visit_host (codes "d") (record six { visiting = [] ∷ ([] ∷ ([] ∷ [])) })

-- The loops end, the last task runs, and ends as well.
abbrev eight : Walk
eight = end_task (record seven { visiting = [] ∷ ([] ∷ []) })

abbrev nine : Walk
nine = end_task (record eight { visiting = [] ∷ [] })

abbrev ten : Walk
ten = begin_task (codes "d") (mesh (codes "d")) (record nine { waiting = [] })

abbrev eleven : Walk
eleven = end_task (record ten { visiting = [] ∷ [] })

abbrev twelve : Walk
twelve = end_task (record eleven { visiting = [] })

half : Steps first 2 seven
unfolding visit_host contains_or_set array_contains passed_over has_suffix has_prefix is_mid
    mid_rest equal to_upper begin_task three_steps
half =
    goes_on six seven
      (goes_on five six
        (goes_on four five
          (goes_on three four three_steps (begins [] [] (codes "b") (mesh (codes "b")) refl))
          (visits [] ([] ∷ ((codes "B" ∷ []) ∷ [])) (codes "C") (codes "d" ∷ []) refl))
        (visits ((codes "d" ∷ []) ∷ ([] ∷ [])) [] (codes "B") [] refl))
      (visits [] ([] ∷ ([] ∷ [])) (codes "d") [] refl)

whole : Steps first 3 twelve
unfolding visit_host contains_or_set array_contains passed_over has_suffix has_prefix is_mid
    mid_rest equal to_upper begin_task end_task half
whole =
    goes_on eleven twelve
      (goes_on ten eleven
        (goes_on nine ten
          (goes_on eight nine (goes_on seven eight half (ends [] ([] ∷ ([] ∷ [])) refl))
            (ends [] ([] ∷ []) refl))
          (begins [] [] (codes "d") (mesh (codes "d")) refl))
        (ends [] ([] ∷ []) refl))
      (ends [] [] refl)

start_walk_complete_example : (array_contains (codes "D") twelve.seen ≡ true) ↔ (
    (name : Bytes) × Reaches mesh (codes "b" ∷ codes "c" ∷ codes "B" ∷ []) name
    × (to_upper name ≡ codes "D"))
unfolding whole half three_steps begin_task end_task visit_host contains_or_set array_contains
    passed_over has_suffix has_prefix is_mid mid_rest equal to_upper
start_walk_complete_example =
    start_walk_complete mesh (codes "b" ∷ codes "c" ∷ codes "B" ∷ []) first twelve 3 whole
      (codes "D") begun (((tt, refl), refl), refl) refl refl (λ a b e. ap by_upper e)

-- The third request is answered.
abbrev third_answers : ℕ → Attempt
third_answers n =
    if n == 0 then no_answer else if n == 1 then responded 503 [] else responded 200 (codes "{}")

abbrev decode : Bytes → Option Bytes
decode body = some body

no_retries_left : get decode third_answers 5 ≡ response (codes "{}")
unfolding get attempts
no_retries_left = refl

get-first_example : get decode third_answers 5 ≡ read_body decode third_answers (some (codes "{}"))
get-first_example = get-first decode third_answers 5 2 (omega arith) refl (λ j h. ground arith)
