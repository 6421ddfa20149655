-- ===== src/Walker/Steps.antt =====
-- internal/walker/walker/walk.go: the tasks of a walk run at the same time, each from any moment
-- after it is made, and their loops take turns in any order; a walk is a sequence of steps, each of
-- which has one call of `ContainsOrSet` at most.
pub mod Once
pub mod Reach
pub mod Visits
use mesh_manager.Common.{
  ℕ, suc, ◌+◌, ◌≡◌, ◌≤◌, ◌<◌, refl, inl, inr, Bool, true, false, List, [], ◌∷◌, ◌++◌, Option, none,
  some, Bytes, equal, any, length, if◌then◌else◌, to_upper, arith, map, Bool-cases, equal_iff, ap,
  sym, ◌∙◌, subst, length-append,
}
use mesh_manager.Walker.{
  Walk, contains_or_set, array_contains, visit_host, begin_task, end_task, passed_over, no_walk,
}

-- A step, and how many tasks begin in it: a task is taken from the queue, wherever it waits; one of
-- the loops takes its next host; or a loop that has no more hosts ends.
pub data Step (w : Walk) : ℕ → Walk → Type 0 where
  begins :
      (before after : List Bytes) (node : Bytes) (answer : Option (List Bytes))
      → w.waiting ≡ before ++ node ∷ after
      → Step w 1 (begin_task node answer (record w { waiting = before ++ after }))
  visits :
      (before after : List (List Bytes)) (name : Bytes) (names : List Bytes)
      → w.visiting ≡ before ++ (name ∷ names) ∷ after
      → Step w 0 (visit_host name (record w { visiting = before ++ names ∷ after }))
  ends :
      (before after : List (List Bytes))
      → w.visiting ≡ before ++ [] ∷ after
      → Step w 0 (end_task (record w { visiting = before ++ after }))

-- A number of steps, in which `n` tasks begin.
pub data Steps (w : Walk) : ℕ → Walk → Type 0 where
  stays : Steps w 0 w
  goes_on : {n m : ℕ} (v u : Walk) → Steps w n v → Step v m u → Steps w (m + n) u

-- How often a name, in upper case, stands in a list of names, and in a list of upper-case ones.
abbrev pub times : Bytes → List Bytes → ℕ
times x [] = 0
times x (y ∷ ys) = if equal y x then suc (times x ys) else times x ys

abbrev pub times_upper : Bytes → List Bytes → ℕ
times_upper x [] = 0
times_upper x (y ∷ ys) = if equal (to_upper y) x then suc (times_upper x ys) else times_upper x ys

-- Each name that was seen is seen once, and is that of one task, which waits or has run.
pub record WellFormed (w : Walk) : Type 0 where
  pub seen_once : (x : Bytes) → times x w.seen ≤ 1
  pub one_task : (x : Bytes) → times_upper x w.waiting + times_upper x w.ran ≡ times x w.seen
  pub all_counted : w.total_count ≡ length w.seen
  pub all_tasks : length w.waiting + length w.ran ≡ length w.seen

times-append : (x : Bytes) (ys zs : List Bytes) → times x (ys ++ zs) ≡ times x ys + times x zs
times-append x [] zs = omega arith
times-append x (y ∷ ys) zs = ground (arith, times-append x ys zs)

times_upper-append :
    (x : Bytes) (ys zs : List Bytes)
    → times_upper x (ys ++ zs) ≡ times_upper x ys + times_upper x zs
times_upper-append x [] zs = omega arith
times_upper-append x (y ∷ ys) zs = ground (arith, times_upper-append x ys zs)

-- What is not in the array is there no time.
times-contains : (x : Bytes) (ys : List Bytes) → array_contains x ys ≡ false → times x ys ≡ 0
unfolding array_contains
times-contains x [] h = refl
times-contains x (y ∷ ys) h = ground (arith, times-contains x ys)

added_once :
    (x name : Bytes) (seen : List Bytes)
    → array_contains name seen ≡ false
    → times x seen ≤ 1
    → times x (seen ++ name ∷ []) ≤ 1
added_once x name seen new once = elim (Bool-cases (equal name x)) [
  | inl e ↦
      let same : name ≡ x = (equal_iff name x).0 e in
      let none_yet : times x seen ≡ 0 =
        subst (λ y. times y seen ≡ 0) same (times-contains name seen new) in
      let one : times x (name ∷ []) ≡ 1 = rw e refl in
      omega (arith, times-append x seen (name ∷ []), none_yet, one)
  | inr e ↦
      let no_more : times x (name ∷ []) ≡ 0 = rw e refl in
      omega (arith, times-append x seen (name ∷ []), no_more)
]

added_task :
    (x name : Bytes) (waiting ran seen : List Bytes)
    → times_upper x waiting + times_upper x ran ≡ times x seen
    → times_upper x (waiting ++ name ∷ []) + times_upper x ran
      ≡ times x (seen ++ to_upper name ∷ [])
added_task x name waiting ran seen e =
    let same : times_upper x (name ∷ []) ≡ times x (to_upper name ∷ []) = refl in
    omega (
      arith,
      e,
      times_upper-append x waiting (name ∷ []),
      times-append x seen (to_upper name ∷ []),
      same,
    )

still_one :
    (x : Bytes) (before after : List Bytes) (node : Bytes) (waiting ran seen : List Bytes)
    → waiting ≡ before ++ node ∷ after
    → times_upper x waiting + times_upper x ran ≡ times x seen
    → times_upper x (before ++ after) + times_upper x (ran ++ node ∷ []) ≡ times x seen
still_one x before after node waiting ran seen e one =
    let had : times_upper x waiting ≡ times_upper x before + times_upper x (node ∷ after) =
      ap (times_upper x) e ∙ times_upper-append x before (node ∷ after) in
    let split : times_upper x (node ∷ after) ≡ times_upper x (node ∷ []) + times_upper x after =
      times_upper-append x (node ∷ []) after in
    omega (
      arith,
      one,
      had,
      split,
      times_upper-append x before after,
      times_upper-append x ran (node ∷ []),
    )

visit_host-WellFormed : (name : Bytes) (w : Walk) → WellFormed w → WellFormed (visit_host name w)
unfolding visit_host contains_or_set
visit_host-WellFormed name w g = elim (Bool-cases (passed_over name)) [
  | inl over ↦ rw over g
  | inr not_over ↦ elim (Bool-cases (array_contains (to_upper name) w.seen)) [
    | inl known ↦ rw (not_over, known) g
    | inr new ↦
        rw (not_over, new)
          (record {
            seen_once = λ x. added_once x (to_upper name) w.seen new (g.seen_once x);
            one_task = λ x. added_task x name w.waiting w.ran w.seen (g.one_task x);
            all_counted = omega (arith, g.all_counted, length-append w.seen (to_upper name ∷ []));
            all_tasks = omega (
              arith,
              g.all_tasks,
              length-append w.seen (to_upper name ∷ []),
              length-append w.waiting (name ∷ []),
            );
          })
  ]
]

pub no_walk-WellFormed : WellFormed no_walk
no_walk-WellFormed = record {
  seen_once = λ x. omega arith;
  one_task = λ x. omega arith;
  all_counted = refl;
  all_tasks = omega arith;
}

-- A task that leaves the queue is one that has run.
moved_task :
    (before after : List Bytes) (node : Bytes) (w : Walk)
    → w.waiting ≡ before ++ node ∷ after
    → WellFormed w
    → WellFormed (record w { waiting = before ++ after; ran = w.ran ++ node ∷ [] })
moved_task before after node w e g = record {
  seen_once = g.seen_once;
  one_task = λ x. still_one x before after node w.waiting w.ran w.seen e (g.one_task x);
  all_counted = g.all_counted;
  all_tasks =
      let had : length w.waiting ≡ length before + suc (length after) =
        ap length e ∙ length-append before (node ∷ after) in
      omega (arith, g.all_tasks, had, length-append before after, length-append w.ran (node ∷ []));
}

Step-WellFormed : (w v : Walk) (m : ℕ) → Step w m v → WellFormed w → WellFormed v
unfolding begin_task end_task
Step-WellFormed w _ _ (begins before after node answer e) g =
    let h = moved_task before after node w e g in
    record {
      seen_once = h.seen_once;
      one_task = h.one_task;
      all_counted = h.all_counted;
      all_tasks = h.all_tasks;
    }
Step-WellFormed w _ _ (visits before after name names e) g =
    visit_host-WellFormed name (record w { visiting = before ++ names ∷ after })
      (record {
        seen_once = g.seen_once;
        one_task = g.one_task;
        all_counted = g.all_counted;
        all_tasks = g.all_tasks;
      })
Step-WellFormed w _ _ (ends before after e) g = record {
  seen_once = g.seen_once;
  one_task = g.one_task;
  all_counted = g.all_counted;
  all_tasks = g.all_tasks;
}

-- From a well-formed walk every sequence of steps leads to one.
pub Steps-WellFormed : (w v : Walk) (n : ℕ) → Steps w n v → WellFormed w → WellFormed v
Steps-WellFormed w _ _ stays g = g
Steps-WellFormed w _ _ (goes_on {m = m} v u more step) g =
    Step-WellFormed v u m step (Steps-WellFormed w v _ more g)
