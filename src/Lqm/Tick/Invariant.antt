-- ===== src/Lqm/Tick/Invariant.antt =====
-- internal/services/lqm/lqm.go, `tick`: what holds of every tracker after it.
use mesh_manager.Common.{
  ℕ, ◌+◌, ◌*◌, ◌/◌, ◌≤◌, ◌≡◌, refl, Bool, true, false, List, [], ◌∷◌, Option, none, some, Bytes,
  codes, equal, load, All, All-map, arith, Bool-cases, inl, inr,
}
use mesh_manager.Lqm.{Floats, DeviceType, Tracker}
use mesh_manager.Lqm.Names.{NetLink}
use mesh_manager.Lqm.Names.Reach.{reach_to_lq_bounds}
use mesh_manager.Lqm.Neighbors.{
  Neighbor, parse_neighbor, see, is_wireguard, tracker_for, update_kind, update_neighbor,
  update_line, update_lines, update_neighbors,
}
use mesh_manager.Lqm.Ping.{second, pinged, ping_time, ping_tracker, calculate_quality}
use mesh_manager.Lqm.Ping.Decay.{next_ping_quality_bound}
use mesh_manager.Lqm.Tick.{is_stale, Manager, Shown, average_all, track_all, tick}
use mesh_manager.Lqm.Tick.Sound.{
  IsSound, AreSound, store-AreSound, load-IsSound, with_routes-AreSound, update_stats-AreSound,
  mark_due-AreSound,
}
use mesh_manager.Lqm.Tick.Prune.{prune_trackers-All, prune_trackers-fresh}

module _ (fl : Floats) where
  open fl use {Float}

  see-IsSound :
      (supernode : Bool) (now : ℕ) (kind : DeviceType) (n : Neighbor) (t : Tracker Float)
      → IsSound t
      → IsSound (see fl supernode now kind n t)
  unfolding see
  see-IsSound supernode now kind n t (ping, lq, nodes, routable) =
      (ping, (reach_to_lq_bounds n.reach).0, nodes, routable)

  average_all-AreSound :
      (ts : List (Bytes × Tracker Float)) → AreSound ts → AreSound (average_all fl ts)
  unfolding average_all
  average_all-AreSound [] k = tt
  average_all-AreSound ((j, t) ∷ ts) (here, k) = (here, average_all-AreSound ts k)

  pinged-IsSound :
      (now : ℕ) (last_tick : Option ℕ) (time : Option Float) (t : Tracker Float)
      → IsSound t
      → IsSound (pinged fl now last_tick time t)
  pinged-IsSound now last_tick none t (ping, lq, nodes, routable) =
      (next_ping_quality_bound false _, lq, nodes, routable)
  pinged-IsSound now last_tick (some time) t (ping, lq, nodes, routable) =
      (next_ping_quality_bound true _, lq, nodes, routable)

  tracked-IsSound :
      (now : ℕ) (last_tick : Option ℕ) (output : Option Bytes) (t : Tracker Float)
      → IsSound t
      → IsSound (calculate_quality fl (ping_tracker fl now last_tick output t))
  unfolding calculate_quality ping_tracker
  tracked-IsSound now last_tick output t h = elim (Bool-cases (equal t.ipv6ll [])) [
    | inl e ↦ rw e h
    | inr e ↦ rw e (pinged-IsSound now last_tick (ping_time fl output) t h)
  ]

  track_all-AreSound :
      (w : Shown) (last_tick : Option ℕ) (ts : List (Bytes × Tracker Float))
      → AreSound ts
      → AreSound (track_all fl w last_tick ts)
  unfolding track_all
  track_all-AreSound w last_tick [] k = tt
  track_all-AreSound w last_tick ((mac, t) ∷ ts) (here, k) = (
    tracked-IsSound (w.ping_at mac) last_tick (w.ping mac) t here,
    track_all-AreSound w last_tick ts k,
  )

  module _ (parse_v6 : Bytes → Option Bytes) (links : Option (List NetLink)) (supernode : Bool)
      (now : ℕ) where
    tracker_for-IsSound :
        (kind : DeviceType) (mac : Bytes) (n : Neighbor) (old : Option (Tracker Float))
        → ((t : Tracker Float) → old ≡ some t → IsSound t)
        → IsSound (tracker_for fl parse_v6 links supernode now kind mac n old)
    tracker_for-IsSound kind mac n none h = ground arith
    tracker_for-IsSound kind mac n (some t) h = elim (Bool-cases (is_wireguard fl t.kind)) [
      | inl e ↦ rw e (h t refl)
      | inr e ↦ rw e (h t refl)
    ]

    update_kind-AreSound :
        (n : Neighbor) (mac : Bytes) (kind : Option DeviceType) (ts : List (Bytes × Tracker Float))
        → AreSound ts
        → AreSound (update_kind fl parse_v6 links supernode now n mac kind ts)
    update_kind-AreSound n mac none ts h = h
    update_kind-AreSound n mac (some kind) ts h =
        store-AreSound mac _ ts
          (see-IsSound supernode now kind n _
            (tracker_for-IsSound kind mac n (load mac ts) (λ t e. load-IsSound mac ts t h e)))
          h

    update_line-AreSound :
        (n : Option Neighbor) (ts : List (Bytes × Tracker Float))
        → AreSound ts
        → AreSound (update_line fl parse_v6 links supernode now n ts)
    unfolding update_neighbor
    update_line-AreSound none ts h = h
    update_line-AreSound (some n) ts h = update_kind-AreSound n _ _ ts h

    update_lines-AreSound :
        (lines : List Bytes) (ts : List (Bytes × Tracker Float))
        → AreSound ts
        → AreSound (update_lines fl parse_v6 links supernode now lines ts)
    unfolding update_lines
    update_lines-AreSound [] ts h = h
    update_lines-AreSound (line ∷ lines) ts h = elim (Bool-cases (equal line (codes "ok"))) [
      | inl e ↦ rw e h
      | inr e ↦
          rw e (update_lines-AreSound lines _ (update_line-AreSound (parse_neighbor line) ts h))
    ]

    update_neighbors-AreSound :
        (lines : Option (List Bytes)) (ts : List (Bytes × Tracker Float))
        → AreSound ts
        → AreSound (update_neighbors fl parse_v6 links supernode now lines ts)
    update_neighbors-AreSound none ts h = h
    update_neighbors-AreSound (some lines) ts h = update_lines-AreSound lines ts h

  -- A tick keeps every tracker sound: its qualities of pings and of the link are at most 100, its
  -- node routes are no more than its routes, and it is routable exactly if it has one. This holds
  -- whatever the daemon, the kernel and the pings answer, also if a socket cannot be opened. After
  -- the tick every tracker was seen in the 24 hours before its start, or later.
  pub tick-AreSound :
      (parse_v6 : Bytes → Option Bytes) (supernode : Bool) (w : Shown) (s : Manager Float)
      → AreSound s.trackers
      → AreSound (tick fl parse_v6 supernode w s).trackers
        × All
            (λ (e : Bytes × Tracker Float). w.start ≤ e.1.last_seen * second + 86400 * second)
            (tick fl parse_v6 supernode w s).trackers
  unfolding tick
  tick-AreSound parse_v6 supernode w s h = (
    prune_trackers-All Float _ w.start _ (
        track_all-AreSound w _ _ (
          mark_due-AreSound Float w.refresh_at _ (
            average_all-AreSound _ (
              update_stats-AreSound Float w.stats _ (
                with_routes-AreSound Float w.routes _ (
                  update_neighbors-AreSound parse_v6 w.links supernode (w.neighbors_at / second)
                    w.neighbors s.trackers h)))))),
    All-map (λ e (fresh : is_stale Float w.start e.1 ≡ false). ground arith) _
        (prune_trackers-fresh Float w.start _),
  )
