-- ===== src/Lqm/Routes/Totals.antt =====
-- internal/services/lqm/lqm.go, `updateRoutes`: the totals against the counts of the trackers.
use mesh_manager.Common.{
  ℕ, suc, ◌+◌, ◌≤◌, ◌≡◌, refl, ◌∙◌, Bool, true, false, ◌||◌, List, [], ◌∷◌, Option, none, some,
  Bytes, equal, equal_self, if◌then◌else◌, load, store, length, All, All-map, arith,
}
use mesh_manager.Lqm.{Tracker}
use mesh_manager.Lqm.Routes.{
  Route, is_node_route, counted_routes, Counts, clear_counts, by_ipv6ll, by_ip, addresses, counted,
  change, count_via, count_routes, settle_metrics, update_routes,
}

module _ (F : Type 0) where
  abbrev pub sum_nodes : List (Bytes × Tracker F) → ℕ
  sum_nodes [] = 0
  sum_nodes ((k, t) ∷ ts) = t.node_route_count + sum_nodes ts

  abbrev pub sum_routes : List (Bytes × Tracker F) → ℕ
  sum_routes [] = 0
  sum_routes ((k, t) ∷ ts) = t.babel_route_count + sum_routes ts

  abbrev is_known : List (Bytes × Tracker F) → Bytes → Bool
  is_known [] mac = false
  is_known ((k, t) ∷ ts) mac = equal k mac || is_known ts mac

  -- Every key that the map of addresses points to is that of a tracker.
  abbrev AreKnown : List (Bytes × Tracker F) → List (Bytes × Bytes) → Type 0
  AreKnown ts m = All (λ (e : Bytes × Bytes). is_known ts e.1 ≡ true) m

  sum_nodes-change :
      (mac : Bytes) (r : Route) (ts : List (Bytes × Tracker F))
      → is_known ts mac ≡ true
      → sum_nodes (change F mac (counted F r) ts)
        ≡ sum_nodes ts + (if is_node_route r then 1 else 0)
  unfolding change
  sum_nodes-change mac r [] h = cc
  sum_nodes-change mac r ((k, t) ∷ ts) h = ground (arith, sum_nodes-change mac r ts)

  sum_routes-change :
      (mac : Bytes) (r : Route) (ts : List (Bytes × Tracker F))
      → sum_routes (change F mac (counted F r) ts) ≤ sum_routes ts + 1
  unfolding change
  sum_routes-change mac r [] = omega arith
  sum_routes-change mac r ((k, t) ∷ ts) = ground (arith, sum_routes-change mac r ts)

  is_known-change :
      (mac j : Bytes) (r : Route) (ts : List (Bytes × Tracker F))
      → is_known (change F mac (counted F r) ts) j ≡ is_known ts j
  unfolding change
  is_known-change mac j r [] = refl
  is_known-change mac j r ((k, t) ∷ ts) = ground (arith, is_known-change mac j r ts)

  is_known-clear :
      (j : Bytes) (ts : List (Bytes × Tracker F)) → is_known (clear_counts F ts) j ≡ is_known ts j
  unfolding clear_counts
  is_known-clear j [] = refl
  is_known-clear j ((k, t) ∷ ts) = ground (arith, is_known-clear j ts)

  store-AreKnown :
      (ts : List (Bytes × Tracker F)) (a mac : Bytes) (m : List (Bytes × Bytes))
      → is_known ts mac ≡ true
      → AreKnown ts m
      → AreKnown ts (store a mac m)
  unfolding store
  store-AreKnown ts a mac [] k h = (k, tt)
  store-AreKnown ts a mac ((b, j) ∷ m) k (here, h) = ground (arith, store-AreKnown ts a mac m k h)

  by_ipv6ll-AreKnown :
      (ts : List (Bytes × Tracker F)) (mac : Bytes) (t : Tracker F) (m : List (Bytes × Bytes))
      → is_known ts mac ≡ true
      → AreKnown ts m
      → AreKnown ts (by_ipv6ll F mac t m)
  by_ipv6ll-AreKnown ts mac t m k h = ground (arith, store-AreKnown ts t.ipv6ll mac m k h)

  by_ip-AreKnown :
      (ts : List (Bytes × Tracker F)) (mac : Bytes) (t : Tracker F) (m : List (Bytes × Bytes))
      → is_known ts mac ≡ true
      → AreKnown ts m
      → AreKnown ts (by_ip F mac t m)
  by_ip-AreKnown ts mac t m k h =
      ground
        (arith, store-AreKnown ts t.ip mac m k h, store-AreKnown ts t.remote.canonical_ip mac m k h)

  addresses-AreKnown :
      (ts rest : List (Bytes × Tracker F)) (m : List (Bytes × Bytes))
      → All (λ (e : Bytes × Tracker F). is_known ts e.0 ≡ true) rest
      → AreKnown ts m
      → AreKnown ts (addresses F rest m)
  unfolding addresses
  addresses-AreKnown ts [] m h k = k
  addresses-AreKnown ts ((mac, t) ∷ rest) m (here, h) k =
      addresses-AreKnown ts rest (by_ip F mac t (by_ipv6ll F mac t m)) h
        (by_ip-AreKnown ts mac t _ here (by_ipv6ll-AreKnown ts mac t m here k))

  keys-known :
      (ts : List (Bytes × Tracker F)) → All (λ (e : Bytes × Tracker F). is_known ts e.0 ≡ true) ts
  keys-known [] = tt
  keys-known ((k, t) ∷ ts) = (
    ground (arith, equal_self k),
    All-map (λ e (h : is_known ts e.0 ≡ true). ground arith) ts (keys-known ts),
  )

  load-known :
      (ts : List (Bytes × Tracker F)) (a mac : Bytes) (m : List (Bytes × Bytes))
      → AreKnown ts m
      → load a m ≡ some mac
      → is_known ts mac ≡ true
  unfolding load
  load-known ts a mac [] h e = cc
  load-known ts a mac ((b, j) ∷ m) (here, h) e = ground (arith, load-known ts a mac m h)

  abbrev Names : List (Bytes × Bytes) → List (Bytes × Tracker F) → Type 0
  Names m ts = (a mac : Bytes) → load a m ≡ some mac → is_known ts mac ≡ true

  -- The counts of the trackers add up to the total of node routes, and to no more than that of all
  -- routes.
  abbrev pub AddUp : Counts F → Type 0
  AddUp c = (sum_nodes c.trackers ≡ c.total_node_routes) × (sum_routes c.trackers ≤ c.total_routes)

  count_via-AddUp :
      (r : Route) (via : Option Bytes) (c : Counts F)
      → ((mac : Bytes) → via ≡ some mac → is_known c.trackers mac ≡ true)
      → AddUp c
      → AddUp (count_via F r via c)
  count_via-AddUp r none c k h = omega arith
  count_via-AddUp r (some mac) c k h =
      omega
        (arith, sum_nodes-change mac r c.trackers (k mac refl), sum_routes-change mac r c.trackers)

  count_via-known :
      (r : Route) (via : Option Bytes) (c : Counts F) (j : Bytes)
      → is_known c.trackers j ≡ true
      → is_known (count_via F r via c).trackers j ≡ true
  count_via-known r none c j h = h
  count_via-known r (some mac) c j h = is_known-change mac j r c.trackers ∙ h

  count_via-total :
      (r : Route) (via : Option Bytes) (c : Counts F) (n : ℕ)
      → (count_via F r via c).total_routes + n ≡ c.total_routes + suc n
  count_via-total r none c n = omega arith
  count_via-total r (some mac) c n = omega arith

  count_routes-AddUp :
      (m : List (Bytes × Bytes)) (rs : List Route) (c : Counts F)
      → Names m c.trackers
      → AddUp c
      → AddUp (count_routes F m rs c)
        × ((count_routes F m rs c).total_routes ≡ c.total_routes + length rs)
  unfolding count_routes
  count_routes-AddUp m [] c k h = (h, omega arith)
  count_routes-AddUp m (r ∷ rs) c k h =
      let rest =
        count_routes-AddUp m rs (count_via F r (load r.via m) c)
          (λ a mac e. count_via-known r (load r.via m) c mac (k a mac e))
          (count_via-AddUp r (load r.via m) c (k r.via) h) in
      (rest.0, rest.1 ∙ count_via-total r (load r.via m) c (length rs))

  clear-AddUp :
      (ts : List (Bytes × Tracker F))
      → (sum_nodes (clear_counts F ts) ≡ 0) × (sum_routes (clear_counts F ts) ≡ 0)
  unfolding clear_counts
  clear-AddUp [] = (refl, refl)
  clear-AddUp ((k, t) ∷ ts) = omega (arith, clear-AddUp ts)

  settle-sums :
      (ts : List (Bytes × Tracker F))
      → (sum_nodes (settle_metrics F ts) ≡ sum_nodes ts)
        × (sum_routes (settle_metrics F ts) ≡ sum_routes ts)
  unfolding settle_metrics
  settle-sums [] = (refl, refl)
  settle-sums ((k, t) ∷ ts) = ground (arith, settle-sums ts)

  -- The totals that `updateRoutes` sets agree with the trackers: that of all routes is the number
  -- of counted ones, that of node routes is the sum of the trackers' counts of nodes, and the
  -- trackers' counts of routes add up to no more than the total.
  pub update_routes-AddUp :
      (lines : List Bytes) (ts : List (Bytes × Tracker F))
      → AddUp (update_routes F lines ts)
        × ((update_routes F lines ts).total_routes ≡ length (counted_routes lines))
  unfolding update_routes
  update_routes-AddUp lines ts =
      let start : Counts F = record {
        trackers = clear_counts F ts;
        total_routes = 0;
        total_node_routes = 0;
      } in
      let m = addresses F ts [] in
      let zeros = clear-AddUp ts in
      let c = count_routes F m (counted_routes lines) start in
      let sound =
        count_routes-AddUp m (counted_routes lines) start
          (λ a mac e.
            is_known-clear mac ts
            ∙ load-known ts a mac m (addresses-AreKnown ts ts [] (keys-known ts) tt) e)
          (omega (arith, clear-AddUp ts)) in
      let same = settle-sums c.trackers in
      ((omega (arith, same, sound), omega (arith, same, sound)), omega (arith, sound))
