-- ===== src/Lqm/Routes/Tally.antt =====
-- internal/services/lqm/lqm.go, `updateRoutes`: what each tracker counts, against a description
-- that has no loop over trackers.
use mesh_manager.Common.{
  ℕ, ◌+◌, ◌≡◌, refl, ap, ◌∙◌, Bool, true, false, ◌||◌, List, [], ◌∷◌, Option, none, some, Bytes,
  equal, equal_iff, ltb, ◌==◌, if◌then◌else◌, load, select, length, arith,
}
use mesh_manager.Lqm.{Tracker}
use mesh_manager.Lqm.Routes.{
  Route, max_metric, is_node_route, counted_routes, Counts, cleared, clear_counts, addresses,
  counted, change, count_via, count_routes, settle_metrics, update_routes,
}

abbrev pub is_key : Bytes → Option Bytes → Bool
is_key mac none = false
is_key mac (some k) = equal k mac

-- The routes whose next hop is a tracker.
abbrev pub routes_via : List (Bytes × Bytes) → Bytes → List Route → List Route
routes_via m mac = select (λ r. is_key mac (load r.via m))

abbrev pub has_any : List Route → Bool
has_any [] = false
has_any (r ∷ rs) = true

abbrev pub lowest : ℕ → List Route → ℕ
lowest best [] = best
lowest best (r ∷ rs) = lowest (if ltb r.metric best then r.metric else best) rs

abbrev pub metric_or_0 : ℕ → ℕ
metric_or_0 n = if n == max_metric then 0 else n

module _ (F : Type 0) where
  -- A tracker that counts a list of routes.
  abbrev pub tallied : List Route → Tracker F → Tracker F
  tallied rs t = record t {
    routable = t.routable || has_any rs;
    babel_route_count = t.babel_route_count + length rs;
    node_route_count = t.node_route_count + length (select is_node_route rs);
    babel_metric = lowest t.babel_metric rs;
  }

  abbrev via_one : Bool → Route → Tracker F → Tracker F
  via_one true r t = counted F r t
  via_one false r t = t

  load-change :
      (mac j : Bytes) (f : Tracker F → Tracker F) (ts : List (Bytes × Tracker F)) (t : Tracker F)
      → load j ts ≡ some t
      → load j (change F mac f ts) ≡ some (if equal mac j then f t else t)
  unfolding load change
  load-change mac j f [] t h = cc
  load-change mac j f ((i, u) ∷ ts) t h =
      ground (arith, equal_iff mac j, equal_iff i mac, equal_iff i j, load-change mac j f ts t)

  load-count_via :
      (r : Route) (via : Option Bytes) (c : Counts F) (mac : Bytes) (t : Tracker F)
      → load mac c.trackers ≡ some t
      → load mac (count_via F r via c).trackers ≡ some (via_one (is_key mac via) r t)
  load-count_via r none c mac t h = h
  load-count_via r (some k) c mac t h = ground (arith, load-change k mac (counted F r) c.trackers t)

  tallied-nil : (t : Tracker F) → t ≡ tallied [] t
  tallied-nil t = ground arith

  tallied-cons :
      (b : Bool) (r : Route) (rs : List Route) (t : Tracker F)
      → tallied rs (via_one b r t) ≡ tallied (if b then r ∷ rs else rs) t
  tallied-cons true r rs t = ground arith
  tallied-cons false r rs t = refl

  load-count_routes :
      (m : List (Bytes × Bytes)) (rs : List Route) (c : Counts F) (mac : Bytes) (t : Tracker F)
      → load mac c.trackers ≡ some t
      → load mac (count_routes F m rs c).trackers ≡ some (tallied (routes_via m mac rs) t)
  unfolding count_routes
  load-count_routes m [] c mac t h = h ∙ ap some (tallied-nil t)
  load-count_routes m (r ∷ rs) c mac t h =
      load-count_routes m rs (count_via F r (load r.via m) c) mac
        (via_one (is_key mac (load r.via m)) r t) (load-count_via r (load r.via m) c mac t h)
      ∙ ap some (tallied-cons (is_key mac (load r.via m)) r (routes_via m mac rs) t)

  load-clear :
      (mac : Bytes) (ts : List (Bytes × Tracker F)) (t : Tracker F)
      → load mac ts ≡ some t
      → load mac (clear_counts F ts) ≡ some (cleared F t)
  unfolding load clear_counts
  load-clear mac [] t h = cc
  load-clear mac ((k, u) ∷ ts) t h = ground (arith, load-clear mac ts t)

  load-settle :
      (mac : Bytes) (ts : List (Bytes × Tracker F)) (t : Tracker F)
      → load mac ts ≡ some t
      → load mac (settle_metrics F ts)
        ≡ some (record t { babel_metric = metric_or_0 t.babel_metric })
  unfolding load settle_metrics
  load-settle mac [] t h = cc
  load-settle mac ((k, u) ∷ ts) t h = ground (arith, load-settle mac ts t)

  -- The counts in terms of the map of addresses that the code builds.
  pub load-update_routes :
      (lines : List Bytes) (ts : List (Bytes × Tracker F)) (mac : Bytes) (t : Tracker F)
      → load mac ts ≡ some t
      → load mac (update_routes F lines ts).trackers
        ≡ some (record t {
          babel_route_count = length (routes_via (addresses F ts []) mac (counted_routes lines));
          node_route_count =
              length
                (select is_node_route (routes_via (addresses F ts []) mac (counted_routes lines)));
          routable = has_any (routes_via (addresses F ts []) mac (counted_routes lines));
          babel_metric =
              metric_or_0
                (lowest max_metric (routes_via (addresses F ts []) mac (counted_routes lines)));
        })
  unfolding update_routes
  load-update_routes lines ts mac t h =
      let start : Counts F = record {
        trackers = clear_counts F ts;
        total_routes = 0;
        total_node_routes = 0;
      } in
      load-settle mac _ _ (
        load-count_routes (addresses F ts []) (counted_routes lines) start mac (cleared F t)
          (load-clear mac ts t h))
      ∙ ap some (ground arith)
