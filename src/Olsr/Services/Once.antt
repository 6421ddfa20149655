-- ===== src/Olsr/Services/Once.antt =====
-- internal/services/olsr/hosts_parser.go: each service is put under one name at most.
use mesh_manager.Common.{
  ℕ, suc, ◌+◌, ◌≤◌, ◌≡◌, refl, ap, sym, ◌∙◌, select, Bool, true, false, ◌||◌, List, [], ◌∷◌, ◌++◌,
  Option, Bytes, if◌then◌else◌, length, length-append, any, arith, Bool-cases, inl, inr,
}
use mesh_manager.Olsr.{MeshService, HostData, Host}
use mesh_manager.Olsr.Services.{
  Marked, unmarked, same_name, taken_by, marked_by, give_children, give_host, give_hosts,
  attach_services,
}

abbrev pub count_marks : List Marked → ℕ
count_marks [] = 0
count_marks ((found, s) ∷ ms) = (if found then 1 else 0) + count_marks ms

-- The services under hosts and their children.
abbrev pub count_children : List HostData → ℕ
count_children [] = 0
count_children (d ∷ ds) = length d.services + count_children ds

abbrev pub count_given : List Host → ℕ
count_given [] = 0
count_given (h ∷ hs) = length h.self.services + count_children h.children + count_given hs

count_marks-le : (ms : List Marked) → count_marks ms ≤ length ms
count_marks-le [] = omega arith
count_marks-le ((true, s) ∷ ms) = omega (arith, count_marks-le ms)
count_marks-le ((false, s) ∷ ms) = omega (arith, count_marks-le ms)

count_marks-unmarked : (ss : List MeshService) → count_marks (unmarked ss) ≡ 0
count_marks-unmarked [] = refl
count_marks-unmarked (s ∷ ss) = omega (arith, count_marks-unmarked ss)

length-unmarked : (ss : List MeshService) → length (unmarked ss) ≡ length ss
length-unmarked [] = refl
length-unmarked (s ∷ ss) = ap suc (length-unmarked ss)

-- The names in the order in which they are offered the services: a host after its children.
abbrev pub child_names : List HostData → List Bytes
child_names [] = []
child_names (d ∷ ds) = d.hostname ∷ child_names ds

abbrev pub all_names : List Host → List Bytes
all_names [] = []
all_names (h ∷ hs) = child_names h.children ++ (h.self.hostname ∷ all_names hs)

module _ (host_of : Bytes → Option Bytes) where
  -- What a name takes is marked.
  taken_by-marks :
      (name : Bytes) (ms : List Marked)
      → count_marks (marked_by host_of name ms) ≡ count_marks ms + length (taken_by host_of name ms)
  unfolding marked_by taken_by
  taken_by-marks name [] = omega arith
  taken_by-marks name ((true, s) ∷ ms) = ground (arith, taken_by-marks name ms)
  taken_by-marks name ((false, s) ∷ ms) = elim (Bool-cases (same_name name (host_of s.url))) [
    | inl e ↦ rw e (omega (arith, taken_by-marks name ms))
    | inr e ↦ rw e (omega (arith, taken_by-marks name ms))
  ]

  length-marked_by :
      (name : Bytes) (ms : List Marked) → length (marked_by host_of name ms) ≡ length ms
  unfolding marked_by
  length-marked_by name [] = refl
  length-marked_by name (m ∷ ms) = ap suc (length-marked_by name ms)

  -- The marks grow by what is given, and stay as many.
  abbrev Gives : ℕ → ℕ → List Marked → List Marked → Type 0
  Gives before after ms ns =
      (after + count_marks ms ≡ before + count_marks ns) × (length ns ≡ length ms)

  give_children-Gives :
      (ds : List HostData) (ms : List Marked)
      → Gives
          (count_children ds)
          (count_children (give_children host_of ds ms).0)
          ms
          (give_children host_of ds ms).1
  unfolding give_children
  give_children-Gives [] ms = (refl, refl)
  give_children-Gives (d ∷ ds) ms = omega (
    arith,
    give_children-Gives ds (marked_by host_of d.hostname ms),
    taken_by-marks d.hostname ms,
    length-marked_by d.hostname ms,
    length-append d.services (taken_by host_of d.hostname ms),
  )

  give_hosts-Gives :
      (hs : List Host) (ms : List Marked)
      → Gives
          (count_given hs)
          (count_given (give_hosts host_of hs ms).0)
          ms
          (give_hosts host_of hs ms).1
  unfolding give_hosts give_host
  give_hosts-Gives [] ms = (refl, refl)
  give_hosts-Gives (h ∷ hs) ms =
      let below = (give_children host_of h.children ms).1 in
      omega (
        arith,
        give_children-Gives h.children ms,
        give_hosts-Gives hs (marked_by host_of h.self.hostname below),
        taken_by-marks h.self.hostname below,
        length-marked_by h.self.hostname below,
        length-append h.self.services (taken_by host_of h.self.hostname below),
      )

  -- Some name is that in the URL of the service.
  abbrev pub is_named : List Bytes → MeshService → Bool
  is_named ns s = any (λ n. same_name n (host_of s.url)) ns

  abbrev mark_named : List Bytes → List Marked → List Marked
  mark_named ns [] = []
  mark_named ns ((found, s) ∷ ms) = (found || is_named ns s, s) ∷ mark_named ns ms

  mark_named-nil : (ms : List Marked) → mark_named [] ms ≡ ms
  mark_named-nil [] = refl
  mark_named-nil ((true, s) ∷ ms) = ap (◌∷◌ (true, s)) (mark_named-nil ms)
  mark_named-nil ((false, s) ∷ ms) = ap (◌∷◌ (false, s)) (mark_named-nil ms)

  mark_named-cons :
      (n : Bytes) (ns : List Bytes) (ms : List Marked)
      → mark_named ns (marked_by host_of n ms) ≡ mark_named (n ∷ ns) ms
  unfolding marked_by
  mark_named-cons n ns [] = refl
  mark_named-cons n ns ((found, s) ∷ ms) = ground (arith, mark_named-cons n ns ms)

  mark_named-append :
      (ns ps : List Bytes) (ms : List Marked)
      → mark_named ps (mark_named ns ms) ≡ mark_named (ns ++ ps) ms
  mark_named-append [] ps ms = ap (mark_named ps) (mark_named-nil ms)
  mark_named-append (n ∷ ns) ps ms =
      ap (mark_named ps) (sym (mark_named-cons n ns ms))
      ∙ mark_named-append ns ps (marked_by host_of n ms)
      ∙ mark_named-cons n (ns ++ ps) ms

  give_children-marks :
      (ds : List HostData) (ms : List Marked)
      → (give_children host_of ds ms).1 ≡ mark_named (child_names ds) ms
  unfolding give_children
  give_children-marks [] ms = sym (mark_named-nil ms)
  give_children-marks (d ∷ ds) ms =
      give_children-marks ds (marked_by host_of d.hostname ms)
      ∙ mark_named-cons d.hostname (child_names ds) ms

  give_hosts-marks :
      (hs : List Host) (ms : List Marked)
      → (give_hosts host_of hs ms).1 ≡ mark_named (all_names hs) ms
  unfolding give_hosts give_host
  give_hosts-marks [] ms = sym (mark_named-nil ms)
  give_hosts-marks (h ∷ hs) ms =
      let below = (give_children host_of h.children ms).1 in
      give_hosts-marks hs (marked_by host_of h.self.hostname below)
      ∙ mark_named-cons h.self.hostname (all_names hs) below
      ∙ ap (mark_named (h.self.hostname ∷ all_names hs)) (give_children-marks h.children ms)
      ∙ mark_named-append (child_names h.children) (h.self.hostname ∷ all_names hs) ms

  count_marks-named :
      (ns : List Bytes) (ss : List MeshService)
      → count_marks (mark_named ns (unmarked ss)) ≡ length (select (is_named ns) ss)
  count_marks-named ns [] = refl
  count_marks-named ns (s ∷ ss) = elim (Bool-cases (is_named ns s)) [
    | inl e ↦ rw e (omega (arith, count_marks-named ns ss))
    | inr e ↦ rw e (omega (arith, count_marks-named ns ss))
  ]

  -- What the hosts and their children gain together at the end of `parseHosts` is the number of
  -- services whose URL names one of them, where a service that several names match counts once.
  pub count_given-attach_services :
      (ss : List MeshService) (hs : List Host)
      → count_given (attach_services host_of ss hs)
        ≡ count_given hs + length (select (is_named (all_names hs)) ss)
  unfolding attach_services
  count_given-attach_services ss hs = omega (
    arith,
    give_hosts-Gives hs (unmarked ss),
    ap count_marks (give_hosts-marks hs (unmarked ss)),
    count_marks-named (all_names hs) ss,
    count_marks-unmarked ss,
  )
