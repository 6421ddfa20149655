-- ===== src/Walker/Steps/Visits.antt =====
-- internal/walker/walker/walk.go: what one visit of a host does to the names that are known, and to
-- the hosts that are left in the loops.
use mesh_manager.Common.{
  ◌≡◌, ◌<◌, ◌⊎◌, refl, inl, inr, true, false, List, [], ◌∷◌, ◌++◌, Bytes, equal, any, to_upper,
  arith, Bool-cases, equal_iff, equal_self, subst, All, All-append,
}
use mesh_manager.Walker.{Walk, array_contains, contains_or_set, passed_over, visit_host}
use mesh_manager.Walker.Steps.{times, times_upper}

-- The name is one that was seen, or is left in some loop, unless it is passed over.
abbrev pub Known : Walk → Bytes → Type 0
Known w name =
    passed_over name ≡ false
    → (array_contains (to_upper name) w.seen ≡ true) ⊎ (any (array_contains name) w.visiting ≡ true)

pub left_after_visit :
    (x name : Bytes) (names : List Bytes) (before after : List (List Bytes))
    → any (array_contains x) (before ++ (name ∷ names) ∷ after) ≡ true
    → (name ≡ x) ⊎ (any (array_contains x) (before ++ names ∷ after) ≡ true)
unfolding array_contains
left_after_visit x name names [] after h = elim (Bool-cases (equal name x)) [
  | inl e ↦ inl ((equal_iff name x).0 e)
  | inr e ↦ inr (ground arith)
]
left_after_visit x name names (v ∷ before) after h = elim (Bool-cases (array_contains x v)) [
  | inl e ↦ inr (ground arith)
  | inr e ↦ elim (left_after_visit x name names before after (ground arith)) [
    | inl same ↦ inl same
    | inr more ↦ inr (ground arith)
  ]
]

pub left_after_end :
    (x : Bytes) (before after : List (List Bytes))
    → any (array_contains x) (before ++ [] ∷ after) ≡ any (array_contains x) (before ++ after)
unfolding array_contains
left_after_end x [] after = refl
left_after_end x (v ∷ before) after = ground (arith, left_after_end x before after)

contains_more :
    (x y : Bytes) (ys : List Bytes)
    → array_contains x ys ≡ true
    → array_contains x (ys ++ y ∷ []) ≡ true
unfolding array_contains
contains_more x y [] h = ground arith
contains_more x y (z ∷ zs) h = ground (arith, contains_more x y zs)

contains_last : (x : Bytes) (ys : List Bytes) → array_contains x (ys ++ x ∷ []) ≡ true
unfolding array_contains
contains_last x [] = rw equal_self refl
contains_last x (z ∷ zs) = ground (arith, contains_last x zs)

pub contains-All :
    (P : Bytes → Type 0) (x : Bytes) (ys : List Bytes) → All P ys → array_contains x ys ≡ true → P x
unfolding array_contains
contains-All P x [] all h = cc
contains-All P x (y ∷ ys) (p, all) h = elim (Bool-cases (equal y x)) [
  | inl e ↦ subst P ((equal_iff y x).0 e) p
  | inr e ↦ contains-All P x ys all (ground arith)
]

-- Every name of a list is in it.
pub All-listed :
    (P : Bytes → Type 0) (ys : List Bytes)
    → ((x : Bytes) → array_contains x ys ≡ true → P x)
    → All P ys
unfolding array_contains
All-listed P [] f = tt
All-listed P (y ∷ ys) f = (f y (rw equal_self refl), All-listed P ys (λ x h. f x (ground arith)))

pub times_contains : (x : Bytes) (ys : List Bytes) → array_contains x ys ≡ true → 0 < times x ys
unfolding array_contains
times_contains x [] h = ground arith
times_contains x (y ∷ ys) h = ground (arith, times_contains x ys)

-- One of the tasks is for a name that is counted.
pub task_of :
    (P : Bytes → Type 0) (x : Bytes) (ys : List Bytes)
    → All P ys
    → 0 < times_upper x ys
    → (name : Bytes) × P name × (to_upper name ≡ x)
task_of P x [] all h = absurd (omega arith)
task_of P x (y ∷ ys) (p, all) h = elim (Bool-cases (equal (to_upper y) x)) [
  | inl e ↦ (y, p, (equal_iff (to_upper y) x).0 e)
  | inr e ↦ task_of P x ys all (ground arith)
]

pub visit_host_more :
    (x name : Bytes) (w : Walk)
    → array_contains x w.seen ≡ true
    → array_contains x (visit_host name w).seen ≡ true
unfolding visit_host contains_or_set
visit_host_more x name w h = ground (arith, contains_more x (to_upper name) w.seen)

pub visit_host_seen :
    (name : Bytes) (w : Walk)
    → passed_over name ≡ false
    → array_contains (to_upper name) (visit_host name w).seen ≡ true
unfolding visit_host contains_or_set
visit_host_seen name w e = ground (arith, contains_last (to_upper name) w.seen)

pub visit_host_waits :
    (P : Bytes → Type 0) (name : Bytes) (w : Walk)
    → (passed_over name ≡ false → P name)
    → All P w.waiting
    → All P (visit_host name w).waiting
unfolding visit_host contains_or_set
visit_host_waits P name w p all = elim (Bool-cases (passed_over name)) [
  | inl e ↦ rw e all
  | inr e ↦ elim (Bool-cases (array_contains (to_upper name) w.seen)) [
    | inl k ↦ rw (e, k) all
    | inr k ↦ rw (e, k) (All-append P w.waiting (name ∷ []) all (p e, tt))
  ]
]

pub All-split :
    {A : Type 0} (P : A → Type 0) (before after : List A) (a : A)
    → All P (before ++ a ∷ after)
    → P a × All P (before ++ after)
All-split P [] after a (p, all) = (p, all)
All-split P (x ∷ before) after a (q, all) =
    let (p, rest) = All-split P before after a all in (p, (q, rest))

pub All-insert :
    {A : Type 0} (P : A → Type 0) (before after : List A) (a : A)
    → P a
    → All P (before ++ after)
    → All P (before ++ a ∷ after)
All-insert P [] after a p all = (p, all)
All-insert P (x ∷ before) after a p (q, all) = (q, All-insert P before after a p all)
