-- ===== src/Lqm/Tick/Prune.antt =====
-- internal/services/lqm/lqm.go, `pruneTrackers`: which trackers are left.
use mesh_manager.Common.{
  ℕ, ◌≡◌, refl, Bool, true, false, ◌&&◌, ◌||◌, List, [], ◌∷◌, none, Bytes, if◌then◌else◌, equal,
  equal_iff, equal_self, load, load-delete, delete, All, All-map, arith, Bool-cases, inl, inr,
}
use mesh_manager.Lqm.{Tracker}
use mesh_manager.Lqm.Tick.{is_stale, prune_each, prune_trackers}

module _ (F : Type 0) where
  -- An entry with this key is stale.
  abbrev pub is_stale_key : ℕ → List (Bytes × Tracker F) → Bytes → Bool
  is_stale_key now [] mac = false
  is_stale_key now ((j, t) ∷ ts) mac = (equal j mac && is_stale F now t) || is_stale_key now ts mac

  load-prune_each :
      (now : ℕ) (ts m : List (Bytes × Tracker F)) (mac : Bytes)
      → load mac (prune_each F now ts m) ≡ (if is_stale_key now ts mac then none else load mac m)
  unfolding prune_each
  load-prune_each now [] m mac = refl
  load-prune_each now ((j, t) ∷ ts) m mac = elim (Bool-cases (is_stale F now t)) [
    | inl e ↦ rw e (ground (arith, load-prune_each now ts (delete j m) mac, load-delete j mac m))
    | inr e ↦ rw e (ground (arith, load-prune_each now ts m mac))
  ]

  -- `pruneTrackers` forgets the keys of the trackers that were last seen more than 24 hours before,
  -- and no others.
  pub load-prune_trackers :
      (now : ℕ) (ts : List (Bytes × Tracker F)) (mac : Bytes)
      → load mac (prune_trackers F now ts) ≡ (if is_stale_key now ts mac then none else load mac ts)
  unfolding prune_trackers
  load-prune_trackers now ts mac = load-prune_each now ts ts mac

  delete-All :
      (P : Bytes × Tracker F → Type 0) (mac : Bytes) (ts : List (Bytes × Tracker F))
      → All P ts
      → All P (delete mac ts)
  unfolding delete
  delete-All P mac [] k = tt
  delete-All P mac ((j, t) ∷ ts) (here, k) = elim (Bool-cases (equal j mac)) [
    | inl e ↦ rw e (delete-All P mac ts k)
    | inr e ↦ rw e (here, delete-All P mac ts k)
  ]

  prune_each-All :
      (P : Bytes × Tracker F → Type 0) (now : ℕ) (ts m : List (Bytes × Tracker F))
      → All P m
      → All P (prune_each F now ts m)
  unfolding prune_each
  prune_each-All P now [] m k = k
  prune_each-All P now ((j, t) ∷ ts) m k = elim (Bool-cases (is_stale F now t)) [
    | inl e ↦ rw e (prune_each-All P now ts (delete j m) (delete-All P j m k))
    | inr e ↦ rw e (prune_each-All P now ts m k)
  ]

  pub prune_trackers-All :
      (P : Bytes × Tracker F → Type 0) (now : ℕ) (ts : List (Bytes × Tracker F))
      → All P ts
      → All P (prune_trackers F now ts)
  unfolding prune_trackers
  prune_trackers-All P now ts k = prune_each-All P now ts ts k

  -- An entry that is stale has its key among the entries that are deleted.
  abbrev Pending : ℕ → List (Bytes × Tracker F) → Bytes × Tracker F → Type 0
  Pending now ts (mac, t) = is_stale F now t ≡ true → is_stale_key now ts mac ≡ true

  delete-Pending :
      (now : ℕ) (j : Bytes) (t : Tracker F) (ts m : List (Bytes × Tracker F))
      → All (Pending now ((j, t) ∷ ts)) m
      → All (Pending now ts) (delete j m)
  unfolding delete
  delete-Pending now j t ts [] k = tt
  delete-Pending now j t ts ((i, u) ∷ m) (here, k) = elim (Bool-cases (equal i j)) [
    | inl e ↦ rw e (delete-Pending now j t ts m k)
    | inr e ↦ rw e (
      λ stale. ground (arith, here stale, equal_iff i j, equal_iff j i),
      delete-Pending now j t ts m k,
    )
  ]

  keep-Pending :
      (now : ℕ) (j : Bytes) (t : Tracker F) (ts m : List (Bytes × Tracker F))
      → is_stale F now t ≡ false
      → All (Pending now ((j, t) ∷ ts)) m
      → All (Pending now ts) m
  keep-Pending now j t ts [] fresh k = tt
  keep-Pending now j t ts ((i, u) ∷ m) fresh (here, k) =
      (λ stale. ground (arith, here stale), keep-Pending now j t ts m fresh k)

  fresh_of : (now : ℕ) (e : Bytes × Tracker F) → Pending now [] e → is_stale F now e.1 ≡ false
  fresh_of now e h = elim (Bool-cases (is_stale F now e.1)) [
    | inl stale ↦ cc (h stale)
    | inr fresh ↦ fresh
  ]

  prune_each-fresh :
      (now : ℕ) (ts m : List (Bytes × Tracker F))
      → All (Pending now ts) m
      → All (λ (e : Bytes × Tracker F). is_stale F now e.1 ≡ false) (prune_each F now ts m)
  unfolding prune_each
  prune_each-fresh now [] m k = All-map (fresh_of now) m k
  prune_each-fresh now ((j, t) ∷ ts) m k = elim (Bool-cases (is_stale F now t)) [
    | inl e ↦ rw e (prune_each-fresh now ts (delete j m) (delete-Pending now j t ts m k))
    | inr e ↦ rw e (prune_each-fresh now ts m (keep-Pending now j t ts m e k))
  ]

  every-Pending : (now : ℕ) (ts : List (Bytes × Tracker F)) → All (Pending now ts) ts
  every-Pending now [] = tt
  every-Pending now ((j, t) ∷ ts) = (
    λ stale. ground (arith, stale, equal_self j),
    All-map (λ e (h : Pending now ts e). λ stale. ground (arith, h stale)) ts
        (every-Pending now ts),
  )

  pub prune_trackers-fresh :
      (now : ℕ) (ts : List (Bytes × Tracker F))
      → All (λ (e : Bytes × Tracker F). is_stale F now e.1 ≡ false) (prune_trackers F now ts)
  unfolding prune_trackers
  prune_trackers-fresh now ts = prune_each-fresh now ts ts (every-Pending now ts)
