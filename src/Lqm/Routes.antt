-- ===== src/Lqm/Routes.antt =====
-- internal/services/lqm/lqm.go, `updateRoutes`: the counts of routes. The trackers that the map of
-- addresses points to are named by their keys.
pub mod Owners
pub mod Tally
pub mod Totals
use mesh_manager.Common.{
  ℕ, zero, suc, ◌+◌, ◌≤◌, Bool, true, false, not, ◌&&◌, ◌||◌, List, [], ◌∷◌, ◌++◌, Option, none,
  some, Bytes, codes, equal, ltb, ◌==◌, if◌then◌else◌, load, store, parse_digits, contains, Piece,
  lit, any_star, any_plus, group, in_word, in_number, match_at,
}
use mesh_manager.Lqm.{Floats, Tracker}
use mesh_manager.Lqm.Neighbors.{clamped, word}

-- `math.MaxInt32`.
abbrev pub max_metric : ℕ
max_metric = 2147483647

abbrev pub route_regex : List Piece
route_regex =
    lit (codes "add route ")
    ∷ any_plus
    ∷ lit (codes " prefix ")
    ∷ group (λ c. not (c == b' ' || c == b'/'))
    ∷ lit (codes "/")
    ∷ group in_number
    ∷ lit (codes " ")
    ∷ any_star
    ∷ lit (codes " installed yes ")
    ∷ any_star
    ∷ lit (codes " metric ")
    ∷ group in_number
    ∷ lit (codes " ")
    ∷ any_star
    ∷ lit (codes " nexthop ")
    ∷ word
    ∷ []

pub record Route : Type 0 where
  pub prefix : Bytes
  pub prefix_len : Bytes
  pub metric : ℕ
  pub via : Bytes

-- The metric is a row of digits, of which an error of `Atoi` leaves the largest int.
abbrev pub route_of : Option (List Bytes) → Option Route
route_of (some (prefix ∷ len ∷ metric ∷ via ∷ [])) = some record {
  prefix = prefix;
  prefix_len = len;
  metric = clamped 9223372036854775807 (parse_digits metric);
  via = via;
}
route_of _ = none

unfoldable pub parse_route : Bytes → Option Route
unfolding match_at
parse_route line = route_of (match_at route_regex line)

abbrev pub is_counted : Route → Bool
is_counted r = contains r.prefix (codes ".") && not (r.metric == 65535)

-- The lines up to "ok": the routes that are counted.
unfoldable pub counted_routes : List Bytes → List Route
counted_routes [] = []
counted_routes (line ∷ lines) =
    let rest = counted_routes lines in
    if equal line (codes "ok")
    then []
    else elim (parse_route line) [ none ↦ rest | some r ↦ if is_counted r then r ∷ rest else rest ]

abbrev pub is_node_route : Route → Bool
is_node_route r = equal r.prefix_len (codes "32")

-- The counts of a tracker.
module _ (F : Type 0) where
  abbrev pub Trackers : Type 0
  Trackers = List (Bytes × Tracker F)

  abbrev pub cleared : Tracker F → Tracker F
  cleared t = record t {
    node_route_count = 0;
    babel_route_count = 0;
    babel_metric = max_metric;
    routable = false;
  }

  unfoldable pub clear_counts : Trackers → Trackers
  clear_counts [] = []
  clear_counts ((mac, t) ∷ ts) = (mac, cleared t) ∷ clear_counts ts

  -- The addresses of a tracker: its link-local one, and its IP or else its canonical one.
  abbrev pub by_ipv6ll : Bytes → Tracker F → List (Bytes × Bytes) → List (Bytes × Bytes)
  by_ipv6ll mac t m = if equal t.ipv6ll [] then m else store t.ipv6ll mac m

  abbrev pub by_ip : Bytes → Tracker F → List (Bytes × Bytes) → List (Bytes × Bytes)
  by_ip mac t m =
      if not (equal t.ip [])
      then store t.ip mac m
      else if not (equal t.remote.canonical_ip [])
      then store t.remote.canonical_ip mac m
      else m

  unfoldable pub addresses : Trackers → List (Bytes × Bytes) → List (Bytes × Bytes)
  addresses [] m = m
  addresses ((mac, t) ∷ ts) m = addresses ts (by_ip mac t (by_ipv6ll mac t m))

  abbrev pub counted : Route → Tracker F → Tracker F
  counted r t = record t {
    routable = true;
    babel_route_count = t.babel_route_count + 1;
    node_route_count = t.node_route_count + (if is_node_route r then 1 else 0);
    babel_metric = if ltb r.metric t.babel_metric then r.metric else t.babel_metric;
  }

  -- The change of the tracker that a key names.
  unfoldable pub change : Bytes → (Tracker F → Tracker F) → Trackers → Trackers
  change mac f [] = []
  change mac f ((k, t) ∷ ts) = if equal k mac then (k, f t) ∷ ts else (k, t) ∷ change mac f ts

  pub record Counts : Type 0 where
    pub trackers : Trackers
    pub total_routes : ℕ
    pub total_node_routes : ℕ

  abbrev pub count_via : Route → Option Bytes → Counts → Counts
  count_via r none c = record c { total_routes = c.total_routes + 1 }
  count_via r (some mac) c = record {
    trackers = change mac (counted r) c.trackers;
    total_routes = c.total_routes + 1;
    total_node_routes = c.total_node_routes + (if is_node_route r then 1 else 0);
  }

  unfoldable pub count_routes : List (Bytes × Bytes) → List Route → Counts → Counts
  count_routes m [] c = c
  count_routes m (r ∷ rs) c = count_routes m rs (count_via r (load r.via m) c)

  abbrev pub settled : Tracker F → Tracker F
  settled t = if t.babel_metric == max_metric then record t { babel_metric = 0 } else t

  unfoldable pub settle_metrics : Trackers → Trackers
  settle_metrics [] = []
  settle_metrics ((mac, t) ∷ ts) = (mac, settled t) ∷ settle_metrics ts

  -- `updateRoutes` once the socket is written to: the trackers with the new totals.
  unfoldable pub update_routes : List Bytes → Trackers → Counts
  unfolding clear_counts addresses count_routes
  update_routes lines ts =
      let c =
        count_routes (addresses ts []) (counted_routes lines)
          (record { trackers = clear_counts ts; total_routes = 0; total_node_routes = 0 }) in
      record c { trackers = settle_metrics c.trackers }
