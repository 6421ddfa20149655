-- ===== src/Walker/Steps/Once.antt =====
-- internal/walker/walker/walk.go: no node's task runs twice, and how many tasks there are.
use mesh_manager.Common.{
  ℕ, ◌+◌, ◌≡◌, ◌≤◌, refl, List, [], ◌∷◌, ◌++◌, Option, none, some, Bytes, length, arith, ap, sym,
  subst, length-append,
}
use mesh_manager.Walker.{Walk, visit_host, begin_task, end_task, start_walk, no_walk}
use mesh_manager.Walker.Steps.{
  Step, begins, visits, ends, Steps, stays, goes_on, times_upper, WellFormed, Steps-WellFormed,
}

-- What a visit does not change.
pub visit_host_keeps :
    (name : Bytes) (w : Walk)
    → ((visit_host name w).ran ≡ w.ran)
      × ((visit_host name w).responses ≡ w.responses)
      × ((visit_host name w).visiting ≡ w.visiting)
unfolding visit_host
visit_host_keeps name w = ground arith

-- The tasks that are in their loops, with the responses sent.
abbrev begun_or_answered : Walk → ℕ
begun_or_answered w = w.responses + length w.visiting

Step-begun_or_answered :
    (w v : Walk) (m : ℕ)
    → Step w m v
    → (length v.ran ≡ length w.ran + m) × (begun_or_answered v ≡ begun_or_answered w + m)
unfolding begin_task end_task
Step-begun_or_answered w _ _ (begins before after node answer e) =
    (length-append w.ran (node ∷ []), omega arith)
Step-begun_or_answered w _ _ (visits before after name names e) =
    let (a, b, c) = visit_host_keeps name (record w { visiting = before ++ names ∷ after }) in
    (
      omega (arith, ap length a),
      omega (
        arith,
        b,
        ap length c,
        ap length e,
        length-append before ((name ∷ names) ∷ after),
        length-append before (names ∷ after),
      ),
    )
Step-begun_or_answered w _ _ (ends before after e) = (
  omega arith,
  omega (arith, ap length e, length-append before ([] ∷ after), length-append before after),
)

Steps-begun_or_answered :
    (w v : Walk) (n : ℕ)
    → Steps w n v
    → (length v.ran ≡ length w.ran + n) × (begun_or_answered v ≡ begun_or_answered w + n)
Steps-begun_or_answered w _ _ stays = (omega arith, omega arith)
Steps-begun_or_answered w _ _ (goes_on {n} {m} v u more step) =
    let (a, b) = Steps-begun_or_answered w v n more in
    let (c, d) = Step-begun_or_answered v u m step in (omega arith, omega arith)

pub started-WellFormed :
    (answer : Option (List Bytes)) (w : Walk)
    → start_walk answer ≡ some w
    → WellFormed w × (length w.ran ≡ 0) × (begun_or_answered w ≡ 1)
unfolding start_walk
started-WellFormed none w e = cc
started-WellFormed (some names) w e =
    let is : record no_walk { visiting = names ∷ [] } ≡ w = cc in
    let begun : WellFormed (record no_walk { visiting = names ∷ [] }) = record {
      seen_once = λ x. omega arith;
      one_task = λ x. omega arith;
      all_counted = refl;
      all_tasks = omega arith;
    } in
    (
      subst WellFormed is begun,
      sym (ap (λ v. length v.ran) is),
      sym (ap (λ v. v.responses + length v.visiting) is),
    )

-- What a walk has done when `n` tasks have begun.
pub record Tally (n : ℕ) (v : Walk) : Type 0 where
  pub no_name_twice : (x : Bytes) → times_upper x v.waiting + times_upper x v.ran ≤ 1
  pub tasks_begun : length v.ran ≡ n
  pub responses_sent : v.responses + length v.visiting ≡ n + 1
  pub counted : v.total_count ≡ length v.waiting + n

-- From a starting node that answers, in whatever order the tasks begin and their loops take turns:
-- no name, in upper case, has two tasks, be they waiting or begun; each task that has begun, and
-- the starting node, has either sent one response or is in its loop; and the total count is that
-- of all tasks.
pub start_walk-Tally :
    (answer : Option (List Bytes)) (w v : Walk) (n : ℕ)
    → start_walk answer ≡ some w
    → Steps w n v
    → Tally n v
start_walk-Tally answer w v n begun steps =
    let (g, none_ran, one) = started-WellFormed answer w begun in
    let h = Steps-WellFormed w v n steps g in
    let (ran, sent) = Steps-begun_or_answered w v n steps in
    let ran_is : length v.ran ≡ n = omega arith in
    record {
      no_name_twice = λ x. omega (arith, h.one_task x, h.seen_once x);
      tasks_begun = ran_is;
      responses_sent = omega arith;
      counted = omega (arith, h.all_counted, h.all_tasks);
    }
