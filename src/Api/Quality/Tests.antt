-- ===== src/Api/Quality/Tests.antt =====
-- internal/server/api/controllers/v1/tunnels.go, `GETTunnelLQM`, over a table in memory.
use mesh_manager.Common.{
  ℕ, ◌≡◌, refl, true, false, [], ◌∷◌, none, some, codes, pos, equal, trim_space, trim_left,
  trim_right, parse_uint, parse_digits,
}
use mesh_manager.Store.Memory.{memory}
use mesh_manager.Models.{Tunnel, TunnelStore, no_tunnel, tunnel_keyed, find_tunnel_by_id}
use mesh_manager.Lqm.{Floats, Tracker, wireguard}
use mesh_manager.Lqm.Neighbors.{Neighbor, new_tracker}
use mesh_manager.Api.Quality.{
  Held, pointers, normalize_lqm_trackers, matches, answered, response_for, reply_from,
  find_tracker_for_tunnel, get_tunnel_lqm,
}
use mesh_manager.Api.Quality.Found.{Shown, get_tunnel_lqm-answered}

-- Numbers that the handler does not look into.
abbrev blind : Floats
blind = record {
  Float = ℕ;
  ratio = λ n d. 0;
  plus = λ a b. 0;
  minus = λ a b. 0;
  times = λ a b. 0;
  over = λ a b. 0;
  less = λ a b. false;
  least = λ a b. 0;
  greatest = λ a b. 0;
  is_zero = λ a. true;
  to_int = λ a. pos 0;
  to_nearest = λ a. pos 0;
  parse_float = λ s. none;
  cos_degrees = λ a. 0;
  root = λ a. 0;
  atan2 = λ a b. 0;
}

abbrev neighbor : Neighbor
neighbor = record {
  ipv6ll = codes "fe80::1";
  iface = codes "wgc3";
  reach = codes "ffff";
  rx_cost = pos 206;
  tx_cost = pos 96;
  rtt = none;
}

abbrev tracker : Tracker ℕ
tracker =
    let t = new_tracker blind 100 wireguard (codes "key") neighbor (codes "172.31.180.16") in
    record t { pings = record t.pings { quality = some (pos 93) } }

abbrev tunnels : TunnelStore
tunnels = memory tunnel_keyed

abbrev tunnel : Tunnel
tunnel = record no_tunnel { id = 3; ip = codes "172.31.180.16"; client = true }

abbrev held : Held ℕ
held = pointers ((codes "none", none) ∷ (codes "key", some tracker) ∷ [])

shows_errors :
    get_tunnel_lqm ℕ true (some held) tunnels (codes "3") (tunnel ∷ [])
    ≡ answered (response_for ℕ tunnel tracker)
unfolding get_tunnel_lqm parse_uint parse_digits matches trim_space trim_left trim_right equal
    find_tunnel_by_id reply_from find_tracker_for_tunnel
shows_errors = refl

get_tunnel_lqm-answered_example :
    Shown ℕ tunnel
      (normalize_lqm_trackers ℕ held)
      (get_tunnel_lqm ℕ true (some held) tunnels (codes "3") (tunnel ∷ []))
unfolding parse_uint parse_digits find_tunnel_by_id
get_tunnel_lqm-answered_example =
    get_tunnel_lqm-answered ℕ tunnels (tunnel ∷ []) (codes "3") 3 tunnel held refl refl
