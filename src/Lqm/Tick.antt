-- ===== src/Lqm/Tick.antt =====
-- internal/services/lqm/lqm.go, `pruneTrackers` and `tick`. The refreshes that a tick starts run on
-- their own and end at any later time (Lqm/Refresh); the file that it writes is left out.
pub mod Sound
pub mod Prune
pub mod Invariant
use mesh_manager.Common.{
  ℕ, ◌+◌, ◌*◌, ◌/◌, Bool, true, false, not, List, [], ◌∷◌, Option, none, some, Bytes, ltb,
  if◌then◌else◌, delete,
}
use mesh_manager.Lqm.{Floats, Tracker}
use mesh_manager.Lqm.Names.{NetLink}
use mesh_manager.Lqm.Neighbors.{update_neighbors}
use mesh_manager.Lqm.Routes.{Counts, update_routes}
use mesh_manager.Lqm.Averages.{LinkStats, update_stats, with_averages}
use mesh_manager.Lqm.Ping.{second, ping_tracker, calculate_quality}
use mesh_manager.Lqm.Refresh.{mark_due, due_keys}

module _ (F : Type 0) where
  -- Not seen for more than 24 hours; `now` is in nanoseconds.
  abbrev pub is_stale : ℕ → Tracker F → Bool
  is_stale now t = ltb (t.last_seen * second + 86400 * second) now

  -- The range over the map, which deletes from it.
  unfoldable pub prune_each :
      ℕ → List (Bytes × Tracker F) → List (Bytes × Tracker F) → List (Bytes × Tracker F)
  prune_each now [] m = m
  prune_each now ((mac, t) ∷ ts) m = prune_each now ts (if is_stale now t then delete mac m else m)

  unfoldable pub prune_trackers : ℕ → List (Bytes × Tracker F) → List (Bytes × Tracker F)
  unfolding prune_each
  prune_trackers now ts = prune_each now ts ts

-- The manager's state, without what only starts and stops it.
pub record Manager (F : Type 0) : Type 0 where
  pub trackers : List (Bytes × Tracker F)
  pub total_route_count : ℕ
  pub total_node_route_count : ℕ
  pub last_tick : Option ℕ

-- What the system shows during a tick, and the times at which the code reads the clock: the start,
-- the neighbors, the refreshes. A ping's time and output depend on the tracker.
pub record Shown : Type 0 where
  pub start : ℕ
  pub neighbors_at : ℕ
  pub refresh_at : ℕ
  pub ping_at : Bytes → ℕ
  pub neighbors : Option (List Bytes)
  pub links : Option (List NetLink)
  pub routes : Option (List Bytes)
  pub stats : Option (List LinkStats)
  pub ping : Bytes → Option Bytes

module _ (F : Type 0) where
  -- Totals are kept if the socket for routes cannot be opened.
  abbrev pub with_routes : Option (List Bytes) → Manager F → Manager F
  with_routes none s = s
  with_routes (some lines) s =
      let c = update_routes F lines s.trackers in
      record s {
        trackers = c.trackers;
        total_route_count = c.total_routes;
        total_node_route_count = c.total_node_routes;
      }

module _ (fl : Floats) where
  open fl use {Float}

  unfoldable pub average_all : List (Bytes × Tracker Float) → List (Bytes × Tracker Float)
  average_all [] = []
  average_all ((mac, t) ∷ ts) = (mac, with_averages fl t) ∷ average_all ts

  -- `updateTrackingState`: each tracker by itself.
  unfoldable pub track_all :
      Shown → Option ℕ → List (Bytes × Tracker Float) → List (Bytes × Tracker Float)
  track_all w last_tick [] = []
  track_all w last_tick ((mac, t) ∷ ts) =
      (mac, calculate_quality fl (ping_tracker fl (w.ping_at mac) last_tick (w.ping mac) t))
      ∷ track_all w last_tick ts

  module _ (parse_v6 : Bytes → Option Bytes) (supernode : Bool) where
    abbrev pub with_neighbors : Shown → Manager Float → Manager Float
    with_neighbors w s = record s {
      trackers =
          update_neighbors fl parse_v6 w.links supernode (w.neighbors_at / second) w.neighbors
            s.trackers;
    }

    -- From the counters on.
    abbrev pub tracked : Shown → Manager Float → Manager Float
    tracked w s = record s {
      trackers = prune_trackers Float w.start (
          track_all w s.last_tick
            (mark_due Float w.refresh_at (average_all (update_stats Float w.stats s.trackers))));
      last_tick = some w.start;
    }

    unfoldable pub tick : Shown → Manager Float → Manager Float
    tick w s = tracked w (with_routes Float w.routes (with_neighbors w s))
