-- ===== src/Bandwidth/Tests.antt =====
-- internal/bandwidth/stat_counter.go on one tunnel and one link.
use mesh_manager.Common.{◌-◌, ◌≡◌, refl, true, List, [], ◌∷◌, some, Bytes, codes, equal, arith}
use mesh_manager.Store.Memory.{memory}
use mesh_manager.Models.{Tunnel, TunnelStore, no_tunnel, tunnel_keyed, find_tunnel_by_interface}
use mesh_manager.Bandwidth.{
  Counter, Link, tunnel_stats, stats_callback, next, round, new_stat_counter,
}
use mesh_manager.Bandwidth.Rounds.{observed, advanced, TwoRounds, round-TwoRounds}
use mesh_manager.Bandwidth.Manager.{Manager}

abbrev iface : Bytes
iface = codes "wgs1"

abbrev tunnel : Tunnel
tunnel = record no_tunnel {
  id = 1;
  active = true;
  is_wireguard = true;
  tunnel_interface = iface;
  rx_bytes = 1000;
  total_rx = 5000;
}

abbrev tunnels : TunnelStore
tunnels = memory tunnel_keyed

abbrev table : List Tunnel
table = tunnel ∷ []

abbrev counter : Counter
counter = record (new_stat_counter iface) { running = true; last_rx = 100; last_tx = 10 }

abbrev first : Link
first = record { rx = 160; tx = 20 }

abbrev second : Link
second = record { rx = 200; tx = 50 }

abbrev after_first : Counter
after_first = advanced counter tunnel 1 first

abbrev stored : Tunnel
stored = observed after_first tunnel 2 second

-- The two rounds see 100 new bytes, and store 40 of them.
stored_bytes : (stored.rx_bytes ≡ 1040) × (stored.rx_bytes_per_sec ≡ 100)
stored_bytes = (refl, refl)

round-TwoRounds_example :
    (round tunnels counter 1 table (some first)
      ≡ next after_first 2 table (
          tunnel_stats (observed counter tunnel 1 first)
          ∷ stats_callback (first.rx - counter.last_rx) (first.tx - counter.last_tx)
          ∷ []))
    × (round tunnels after_first 2 table (some second)
        ≡ next (advanced after_first tunnel 2 second) 3 (stored ∷ []) (
            tunnel_stats stored
            ∷ stats_callback (second.rx - first.rx) (second.tx - first.tx)
            ∷ []))
    × TwoRounds counter tunnel first second stored
unfolding find_tunnel_by_interface equal
round-TwoRounds_example =
    round-TwoRounds tunnels counter tunnel 1 table (stored ∷ []) first second
      (refl, refl, refl, omega arith, omega arith) (omega arith) (omega arith) refl refl refl

abbrev idle : Manager
idle = record {
  counters = [];
  is_running = true;
  total_rx = 0;
  total_tx = 0;
  total_rx_bandwidth = 0;
  total_tx_bandwidth = 0;
}
