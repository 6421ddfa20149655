-- ===== src/Walker/Steps/Reach.antt =====
-- internal/walker/walker/walk.go: a walk that has no more tasks has seen the nodes that can be
-- reached from the starting node, and no others.
use mesh_manager.Common.{
  ℕ, ◌+◌, ◌≡◌, ◌<◌, ◌↔◌, ◌⊎◌, refl, inl, inr, true, false, List, [], ◌∷◌, ◌++◌, Option, none, some,
  Bytes, any, to_upper, arith, ap, sym, ◌∙◌, subst, All, All-map, All-append,
}
use mesh_manager.Walker.{
  Walk, array_contains, passed_over, visit_host, hosts_of, begin_task, end_task, start_walk,
  no_walk,
}
use mesh_manager.Walker.Steps.{
  begins, visits, ends, Steps, stays, goes_on, times_upper, WellFormed, Steps-WellFormed,
}
use mesh_manager.Walker.Steps.Visits.{
  Known, left_after_visit, left_after_end, contains-All, All-listed, times_contains, task_of,
  visit_host_more, visit_host_seen, visit_host_waits, All-split, All-insert,
}
use mesh_manager.Walker.Steps.Once.{visit_host_keeps, started-WellFormed}

-- The mesh: what each node answers. A name is reached when the starting node lists it, or a node
-- that is reached, and it is not passed over.
pub data Reaches (mesh : Bytes → Option (List Bytes)) (first : List Bytes) : Bytes → Type 0 where
  by_start :
      (name : Bytes)
      → array_contains name first ≡ true
      → passed_over name ≡ false
      → Reaches mesh first name
  by_node :
      (name node : Bytes) (names : List Bytes)
      → Reaches mesh first node
      → mesh node ≡ some names
      → array_contains name names ≡ true
      → passed_over name ≡ false
      → Reaches mesh first name

-- The answers of the tasks are those of the mesh.
abbrev pub Follows : (Bytes → Option (List Bytes)) → {w v : Walk} {n : ℕ} → Steps w n v → Type 0
Follows mesh stays = Unit {0}
Follows mesh (goes_on v u more (begins before after node answer e)) =
    Follows mesh more × (answer ≡ mesh node)
Follows mesh (goes_on v u more (visits before after name names e)) = Follows mesh more
Follows mesh (goes_on v u more (ends before after e)) = Follows mesh more

module _ (mesh : Bytes → Option (List Bytes)) (first : List Bytes) where
  -- All that the node lists was seen or is left in a loop.
  abbrev Closed : Walk → Bytes → Type 0
  Closed w node = (names : List Bytes) → mesh node ≡ some names → All (Known w) names

  -- The names that a loop is to visit are reached, unless they are passed over.
  abbrev Listed : List Bytes → Type 0
  Listed = All (λ name. passed_over name ≡ false → Reaches mesh first name)

  record Covers (w : Walk) : Type 0 where
    waits : All (Reaches mesh first) w.waiting
    did : All (Reaches mesh first) w.ran
    left : All Listed w.visiting
    closed : All (Closed w) w.ran
    starts : All (Known w) first

  -- A walk in which no task has begun since, and what was known is known.
  Covers-wider :
      (w v : Walk)
      → v.ran ≡ w.ran
      → All (Reaches mesh first) v.waiting
      → All Listed v.visiting
      → ((x : Bytes) → Known w x → Known v x)
      → Covers w
      → Covers v
  Covers-wider w v same waits left wider c = record {
    waits = waits;
    did = subst (All (Reaches mesh first)) (sym same) c.did;
    left = left;
    closed =
        subst (All (Closed v)) (sym same)
          (All-map (λ x k ns f. All-map wider ns (k ns f)) w.ran c.closed);
    starts = All-map wider first c.starts;
  }

  visits-Covers :
      (w : Walk) (before after : List (List Bytes)) (name : Bytes) (names : List Bytes)
      → w.visiting ≡ before ++ (name ∷ names) ∷ after
      → Covers w
      → Covers (visit_host name (record w { visiting = before ++ names ∷ after }))
  visits-Covers w before after name names e c =
      let w' : Walk = record w { visiting = before ++ names ∷ after } in
      let ((p, ps), rest) =
        All-split Listed before after (name ∷ names) (subst (All Listed) e c.left) in
      let kept = visit_host_keeps name w' in
      let still : (x : Bytes)
          → any (array_contains x) w.visiting ≡ true
          → passed_over x ≡ false
          → (array_contains (to_upper x) (visit_host name w').seen ≡ true)
            ⊎ (any (array_contains x) (visit_host name w').visiting ≡ true) =
        λ x h over.
          elim (left_after_visit x name names before after
            (subst (λ vs. any (array_contains x) vs ≡ true) e h)) [
              | inl same ↦ inl (
                  subst (λ y. array_contains (to_upper y) (visit_host name w').seen ≡ true) same
                    (visit_host_seen name w' (subst (λ y. passed_over y ≡ false) (sym same) over)))
              | inr more ↦ inr (subst (λ vs. any (array_contains x) vs ≡ true) (sym kept.2) more)
            ] in
      Covers-wider w (visit_host name w') kept.0
        (visit_host_waits (Reaches mesh first) name w' p c.waits)
        (subst (All Listed) (sym kept.2) (All-insert Listed before after names ps rest))
        (λ x k over. elim (k over) [
          | inl h ↦ inl (visit_host_more (to_upper x) name w' h)
          | inr h ↦ still x h over
        ])
        c

  ends-Covers :
      (w : Walk) (before after : List (List Bytes))
      → w.visiting ≡ before ++ [] ∷ after
      → Covers w
      → Covers (end_task (record w { visiting = before ++ after }))
  unfolding end_task
  ends-Covers w before after e c =
      Covers-wider w (record w { visiting = before ++ after; responses = w.responses + 1 }) refl
        c.waits (All-split Listed before after [] (subst (All Listed) e c.left)).1
        (λ x k over. elim (k over) [
          | inl h ↦ inl h
          | inr h ↦ inr (
              subst (λ b. b ≡ true) (left_after_end x before after)
                (subst (λ vs. any (array_contains x) vs ≡ true) e h))
        ])
        c

  -- What a node that is reached answers.
  answer-Listed :
      (node : Bytes) (answer : Option (List Bytes))
      → answer ≡ mesh node
      → Reaches mesh first node
      → Listed (hosts_of answer)
  answer-Listed node none e r = tt
  answer-Listed node (some names) e r =
      All-listed (λ name. passed_over name ≡ false → Reaches mesh first name) names
        (λ x h over. by_node x node names r (sym e) h over)

  answer-Closed :
      (w : Walk) (node : Bytes) (answer : Option (List Bytes))
      → answer ≡ mesh node
      → ((x : Bytes) → array_contains x (hosts_of answer) ≡ true → Known w x)
      → Closed w node
  answer-Closed w node none e known names f = cc
  answer-Closed w node (some listed) e known names f =
      let same : listed ≡ names = cc in
      subst (All (Known w)) same (All-listed (Known w) listed known)

  begins-Covers :
      (w : Walk) (before after : List Bytes) (node : Bytes) (answer : Option (List Bytes))
      → w.waiting ≡ before ++ node ∷ after
      → answer ≡ mesh node
      → Covers w
      → Covers (begin_task node answer (record w { waiting = before ++ after }))
  unfolding begin_task
  begins-Covers w before after node answer e follows c =
      let (r, rest) =
        All-split (Reaches mesh first) before after node
          (subst (All (Reaches mesh first)) e c.waits) in
      let v : Walk = record w {
        waiting = before ++ after;
        ran = w.ran ++ node ∷ [];
        visiting = hosts_of answer ∷ w.visiting;
      } in
      let wider : (x : Bytes) → Known w x → Known v x =
        λ x k over. elim (k over) [ inl h ↦ inl h | inr h ↦ inr (ground arith) ] in
      let now : Closed v node =
        answer-Closed v node answer follows (λ x h over. inr (ground arith)) in
      record {
        waits = rest;
        did = All-append (Reaches mesh first) w.ran (node ∷ []) c.did (r, tt);
        left = (answer-Listed node answer follows r, c.left);
        closed =
            All-append (Closed v) w.ran (node ∷ [])
              (All-map (λ x k ns f. All-map wider ns (k ns f)) w.ran c.closed) (now, tt);
        starts = All-map wider first c.starts;
      }

  Steps-Covers :
      (w v : Walk) (n : ℕ) (steps : Steps w n v) → Follows mesh steps → Covers w → Covers v
  Steps-Covers w _ _ stays f c = c
  Steps-Covers w _ _ (goes_on v u more (begins before after node answer e)) (f, follows) c =
      begins-Covers v before after node answer e follows (Steps-Covers w v _ more f c)
  Steps-Covers w _ _ (goes_on v u more (visits before after name names e)) f c =
      visits-Covers v before after name names e (Steps-Covers w v _ more f c)
  Steps-Covers w _ _ (goes_on v u more (ends before after e)) f c =
      ends-Covers v before after e (Steps-Covers w v _ more f c)

  start_walk-Covers : (w : Walk) → start_walk (some first) ≡ some w → Covers w
  unfolding start_walk
  start_walk-Covers w begun =
      let v : Walk = record no_walk { visiting = first ∷ [] } in
      let c : Covers v = record {
        waits = tt;
        did = tt;
        left = (
          All-listed (λ name. passed_over name ≡ false → Reaches mesh first name) first
              (λ x h over. by_start x h over),
          tt,
        );
        closed = tt;
        starts = All-listed (Known v) first (λ x h over. inr (ground arith));
      } in
      let is : v ≡ w = cc in subst Covers is c

  module _ (v : Walk) (g : WellFormed v) (c : Covers v) (ended : v.waiting ≡ [])
      (no_loop : v.visiting ≡ []) where
    has_run : (x : Bytes) → array_contains x v.seen ≡ true → 0 < times_upper x v.ran
    has_run x h =
        let nothing : times_upper x v.waiting ≡ 0 = ap (times_upper x) ended in
        omega (arith, nothing, g.one_task x, times_contains x v.seen h)

    seen_in_the_end :
        (x : Bytes) → Known v x → passed_over x ≡ false → array_contains (to_upper x) v.seen ≡ true
    seen_in_the_end x k over = elim (k over) [
      | inl h ↦ h
      | inr h ↦
          let nothing : false ≡ true = subst (λ vs. any (array_contains x) vs ≡ true) no_loop h in
          cc
    ]

    seen_if_reached :
        ((a b : Bytes) → to_upper a ≡ to_upper b → mesh a ≡ mesh b)
        → (name : Bytes) → Reaches mesh first name
        → array_contains (to_upper name) v.seen ≡ true
    seen_if_reached folds _ (by_start name h over) =
        seen_in_the_end name (contains-All (Known v) name first c.starts h) over
    seen_if_reached folds _ (by_node name node names r e h over) =
        let (other, closed, same) =
          task_of (Closed v) (to_upper node) v.ran c.closed
            (has_run (to_upper node) (seen_if_reached folds node r)) in
        seen_in_the_end name
          (contains-All (Known v) name names (closed names (folds other node same ∙ e)) h) over

    reached_if_seen :
        (x : Bytes)
        → array_contains x v.seen ≡ true
        → (name : Bytes) × Reaches mesh first name × (to_upper name ≡ x)
    reached_if_seen x h = task_of (Reaches mesh first) x v.ran c.did (has_run x h)

  -- A walk through a mesh in which a name's case does not matter, in whatever order the tasks have
  -- begun and their loops have taken turns: when no task and no loop is left, the names that were
  -- seen are, in upper case, exactly those that can be reached from the starting node over the
  -- nodes that answer, passed-over names apart.
  pub start_walk_complete :
      (w v : Walk) (n : ℕ) (steps : Steps w n v) (x : Bytes)
      → start_walk (some first) ≡ some w
      → Follows mesh steps
      → v.waiting ≡ []
      → v.visiting ≡ []
      → ((a b : Bytes) → to_upper a ≡ to_upper b → mesh a ≡ mesh b)
      → (array_contains x v.seen ≡ true)
        ↔ ((name : Bytes) × Reaches mesh first name × (to_upper name ≡ x))
  start_walk_complete w v n steps x begun follows ended no_loop folds =
      let c = Steps-Covers w v n steps follows (start_walk-Covers w begun) in
      let g = Steps-WellFormed w v n steps (started-WellFormed (some first) w begun).0 in
      (
        reached_if_seen v g c ended no_loop x,
        λ (name, r, e).
            subst (λ y. array_contains y v.seen ≡ true) e
              (seen_if_reached v g c ended no_loop folds name r),
      )
