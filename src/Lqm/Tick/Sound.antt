-- ===== src/Lqm/Tick/Sound.antt =====
-- internal/services/lqm/lqm.go: what holds of every tracker, and is kept by the operations on
-- routes and counters.
use mesh_manager.Common.{
  ℕ, ◌≤◌, ◌<◌, ◌≡◌, subst, ◌↔◌, Bool, true, false, List, [], ◌∷◌, Option, none, some, Bytes,
  if◌then◌else◌, equal, load, store, All, arith, Bool-cases, inl, inr,
}
use mesh_manager.Lqm.{Tracker, device_to_type}
use mesh_manager.Lqm.Routes.{
  Route, Counts, counted_routes, clear_counts, addresses, counted, change, count_via, count_routes,
  settled, settle_metrics, update_routes,
}
use mesh_manager.Lqm.Averages.{
  LinkStats, is_some, with_stats, set_stats, set_all_stats, update_stats,
}
use mesh_manager.Lqm.Refresh.{is_due, mark_due}
use mesh_manager.Lqm.Tick.{Manager, with_routes}

module _ {F : Type 0} where
  -- Percentages are at most 100, node routes are among the routes, and a tracker is routable
  -- exactly if it has a route.
  abbrev pub IsSound : Tracker F → Type 0
  IsSound t =
      (t.pings.ping_quality ≤ 100)
      × (t.link.lq ≤ 100)
      × (t.node_route_count ≤ t.babel_route_count)
      × (t.routable ≡ true ↔ 0 < t.babel_route_count)

  abbrev pub AreSound : List (Bytes × Tracker F) → Type 0
  AreSound = All (λ (e : Bytes × Tracker F). IsSound e.1)

  pub store-AreSound :
      (mac : Bytes) (t : Tracker F) (ts : List (Bytes × Tracker F))
      → IsSound t
      → AreSound ts
      → AreSound (store mac t ts)
  unfolding store
  store-AreSound mac t [] h k = (h, tt)
  store-AreSound mac t ((j, u) ∷ ts) h (here, k) = elim (Bool-cases (equal j mac)) [
    | inl e ↦ rw e (h, k)
    | inr e ↦ rw e (here, store-AreSound mac t ts h k)
  ]

  some_same : (u t : Tracker F) → some u ≡ some t → u ≡ t
  some_same u t h = cc

  either_way :
      (b : Bool) (xs ys : List (Bytes × Tracker F))
      → AreSound xs
      → AreSound ys
      → AreSound (if b then xs else ys)
  either_way true xs ys h k = h
  either_way false xs ys h k = k

  pub load-IsSound :
      (mac : Bytes) (ts : List (Bytes × Tracker F)) (t : Tracker F)
      → AreSound ts
      → load mac ts ≡ some t
      → IsSound t
  unfolding load
  load-IsSound mac [] t k e = cc
  load-IsSound mac ((j, u) ∷ ts) t (here, k) e = elim (Bool-cases (equal j mac)) [
    | inl same ↦ subst IsSound (some_same u t (rw same at e)) here
    | inr differs ↦ load-IsSound mac ts t k (rw differs at e)
  ]

module _ (F : Type 0) where
  change-AreSound :
      (mac : Bytes) (r : Route) (ts : List (Bytes × Tracker F))
      → AreSound ts
      → AreSound (change F mac (counted F r) ts)
  unfolding change
  change-AreSound mac r [] k = tt
  change-AreSound mac r ((j, t) ∷ ts) (here, k) = elim (Bool-cases (equal j mac)) [
    | inl e ↦ rw e (ground arith, k)
    | inr e ↦ rw e (here, change-AreSound mac r ts k)
  ]

  count_via-AreSound :
      (r : Route) (via : Option Bytes) (c : Counts F)
      → AreSound c.trackers
      → AreSound (count_via F r via c).trackers
  count_via-AreSound r none c h = h
  count_via-AreSound r (some mac) c h = change-AreSound mac r c.trackers h

  count_routes-AreSound :
      (m : List (Bytes × Bytes)) (rs : List Route) (c : Counts F)
      → AreSound c.trackers
      → AreSound (count_routes F m rs c).trackers
  unfolding count_routes
  count_routes-AreSound m [] c h = h
  count_routes-AreSound m (r ∷ rs) c h =
      count_routes-AreSound m rs (count_via F r (load r.via m) c)
        (count_via-AreSound r (load r.via m) c h)

  clear-AreSound : (ts : List (Bytes × Tracker F)) → AreSound ts → AreSound (clear_counts F ts)
  unfolding clear_counts
  clear-AreSound [] k = tt
  clear-AreSound ((j, t) ∷ ts) (here, k) = (ground arith, clear-AreSound ts k)

  settled-IsSound : (t : Tracker F) → IsSound t → IsSound (settled F t)
  settled-IsSound t h = ground arith

  settle-AreSound : (ts : List (Bytes × Tracker F)) → AreSound ts → AreSound (settle_metrics F ts)
  unfolding settle_metrics
  settle-AreSound [] k = tt
  settle-AreSound ((j, t) ∷ ts) (here, k) = (settled-IsSound t here, settle-AreSound ts k)

  pub with_routes-AreSound :
      (lines : Option (List Bytes)) (s : Manager F)
      → AreSound s.trackers
      → AreSound (with_routes F lines s).trackers
  unfolding update_routes
  with_routes-AreSound none s h = h
  with_routes-AreSound (some lines) s h = settle-AreSound _ (
      count_routes-AreSound (addresses F s.trackers []) (counted_routes lines) _
        (clear-AreSound s.trackers h))

  with_stats-IsSound :
      (stats : Option (ℕ × ℕ)) (t : Tracker F) → IsSound t → IsSound (with_stats F stats t)
  with_stats-IsSound none t h = h
  with_stats-IsSound (some (packets, errors)) t h = h

  set_stats-AreSound :
      (l : LinkStats) (ts : List (Bytes × Tracker F)) → AreSound ts → AreSound (set_stats F l ts)
  unfolding set_stats
  set_stats-AreSound l [] k = tt
  set_stats-AreSound l ((j, t) ∷ ts) (here, k) = elim (Bool-cases (equal t.device l.name)) [
    | inl e ↦ rw e (with_stats-IsSound l.stats t here, k)
    | inr e ↦ rw e (here, set_stats-AreSound l ts k)
  ]

  pub update_stats-AreSound :
      (ls : Option (List LinkStats)) (ts : List (Bytes × Tracker F))
      → AreSound ts
      → AreSound (update_stats F ls ts)
  unfolding set_all_stats
  update_stats-AreSound none ts h = h
  update_stats-AreSound (some []) ts h = h
  update_stats-AreSound (some (l ∷ ls)) ts h =
      update_stats-AreSound (some ls)
        (if is_some (device_to_type l.name) then set_stats F l ts else ts)
        (either_way (is_some (device_to_type l.name)) _ _ (set_stats-AreSound l ts h) h)

  pub mark_due-AreSound :
      (now : ℕ) (ts : List (Bytes × Tracker F)) → AreSound ts → AreSound (mark_due F now ts)
  unfolding mark_due
  mark_due-AreSound now [] k = tt
  mark_due-AreSound now ((j, t) ∷ ts) (here, k) = elim (Bool-cases (is_due F now t)) [
    | inl e ↦ rw e (here, mark_due-AreSound now ts k)
    | inr e ↦ rw e (here, mark_due-AreSound now ts k)
  ]
