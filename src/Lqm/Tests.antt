-- ===== src/Lqm/Tests.antt =====
-- internal/services/lqm/lqm.go: the trackers of two tunnels, with numbers in thousandths.
use mesh_manager.Common.{
  ℕ, ◌+◌, ◌-◌, ◌*◌, ◌/◌, ◌≤◌, ◌≡◌, refl, sym, ◌↔◌, true, false, List, [], ◌∷◌, Option, none, some,
  Bytes, codes, ltb, ◌==◌, if◌then◌else◌, pos, parse_digits, load, equal, contains, All, length,
  arith, itoa,
}
use mesh_manager.Net.{Ip4, v4, parse_ip, ip4_string}
use mesh_manager.Models.{Tunnel, no_tunnel, interface_name}
use mesh_manager.Wireguard.{client_ip, link_local}
use mesh_manager.Lqm.{Floats, Tracker, wireguard}
use mesh_manager.Lqm.Names.{NetLink, ipv6ll_to_mac, hex_digit, mac_string, derive_wireguard_peer_ip}
use mesh_manager.Lqm.Names.Keys.{ipv6ll_to_mac-tunnel}
use mesh_manager.Lqm.Names.Peers.{derive_wireguard_peer_ip-other_end}
use mesh_manager.Lqm.Neighbors.{Neighbor, parse_neighbor, new_tracker}
use mesh_manager.Lqm.Routes.{parse_route, counted_routes, update_routes}
use mesh_manager.Lqm.Routes.Owners.{routes_to, update_routes-routes_to}
use mesh_manager.Lqm.Routes.Totals.{AddUp, update_routes-AddUp}
use mesh_manager.Lqm.Ping.{second}
use mesh_manager.Lqm.Tick.{Manager, Shown, tick}
use mesh_manager.Lqm.Tick.Sound.{AreSound}
use mesh_manager.Lqm.Tick.Invariant.{tick-AreSound}

abbrev whole : Option ℕ → Option ℕ
whole none = none
whole (some n) = some (n * 1000)

abbrev thousandths : Floats
thousandths = record {
  Float = ℕ;
  ratio = λ n d. (n * 1000) / d;
  plus = λ a b. a + b;
  minus = λ a b. a - b;
  times = λ a b. (a * b) / 1000;
  over = λ a b. (a * 1000) / b;
  less = ltb;
  least = λ a b. if ltb b a then b else a;
  greatest = λ a b. if ltb a b then b else a;
  is_zero = λ a. a == 0;
  to_int = λ a. pos (a / 1000);
  to_nearest = λ a. pos ((a + 500) / 1000);
  parse_float = λ s. whole (parse_digits s);
  cos_degrees = λ a. 1000;
  root = λ a. a;
  atan2 = λ a b. 0;
}

-- The one IPv6 address of these tests, that of 172.31.180.16.
abbrev tunnel_ip : Ip4
tunnel_ip = record { o0 = 172; o1 = 31; o2 = 180; o3 = 16 }

abbrev tunnel_ll : Bytes
tunnel_ll = codes "fe80::200:acff:fe1f:b410"

abbrev parse_ll : Bytes → Option Bytes
parse_ll s =
    if equal s tunnel_ll
    then some (0xfe ∷ 0x80 ∷ 0 ∷ 0 ∷ 0 ∷ 0 ∷ 0 ∷ 0 ∷ 2 ∷ 0 ∷ 172 ∷ 0xff ∷ 0xfe ∷ 31 ∷ 180 ∷ 16 ∷ [])
    else none

abbrev neighbor_line : Bytes
neighbor_line =
    codes
      "add neighbour 55d9 address fe80::200:acff:fe1f:b410 if wgs3 reach ffff ureach 0000 rxcost 206 txcost 96 rtt 5 rttcost 0 cost 96"

abbrev neighbor : Neighbor
neighbor = record {
  ipv6ll = tunnel_ll;
  iface = codes "wgs3";
  reach = codes "ffff";
  rx_cost = pos 206;
  tx_cost = pos 96;
  rtt = some (codes "5");
}

parse_neighbor_line : parse_neighbor neighbor_line ≡ some neighbor
unfolding parse_neighbor parse_digits
parse_neighbor_line = refl

abbrev route_line : Bytes
route_line =
    codes
      "add route 5581 prefix 10.51.120.3/32 from 0.0.0.0/0 installed yes id 02 metric 257 refmetric 0 nexthop fe80::200:acff:fe1f:b410 if wgs3"

parse_route_line :
    parse_route route_line
    ≡ some (record {
      prefix = codes "10.51.120.3";
      prefix_len = codes "32";
      metric = 257;
      via = tunnel_ll;
    })
unfolding parse_route parse_digits
parse_route_line = refl

abbrev key : Bytes
key = codes "00:00:ac:1f:b4:10"

abbrev tracker : Tracker ℕ
tracker = new_tracker thousandths 100 wireguard key neighbor (codes "172.31.180.17")

abbrev trackers : List (Bytes × Tracker ℕ)
trackers = (key, record tracker { pings = record tracker.pings { ping_quality = 90 } }) ∷ []

abbrev server_links : List NetLink
server_links = record { name = codes "wgs3"; addrs = some (v4 tunnel_ip ∷ []) } ∷ []

abbrev manager : Manager ℕ
manager = record {
  trackers = [];
  total_route_count = 0;
  total_node_route_count = 0;
  last_tick = none;
}

abbrev shown : Shown
shown = record {
  start = 100 * second;
  neighbors_at = 100 * second;
  refresh_at = 100 * second;
  ping_at = λ mac. 101 * second;
  neighbors = some (neighbor_line ∷ codes "ok" ∷ []);
  links = some server_links;
  routes = some (route_line ∷ codes "ok" ∷ []);
  stats = none;
  ping = λ mac. none;
}

tick-AreSound_example :
    AreSound (tick thousandths parse_ll false shown manager).trackers
    × All
        (λ (e : Bytes × Tracker ℕ). 100 * second ≤ e.1.last_seen * second + 86400 * second)
        (tick thousandths parse_ll false shown manager).trackers
tick-AreSound_example = tick-AreSound thousandths parse_ll false shown manager tt

update_routes-routes_to_example :
    load key (update_routes ℕ (route_line ∷ []) trackers).trackers
    ≡ some (record tracker {
      pings = record tracker.pings { ping_quality = 90 };
      babel_route_count = 1;
      node_route_count = 1;
      routable = true;
      babel_metric = 257;
    })
unfolding load equal routes_to parse_route parse_digits contains
update_routes-routes_to_example =
    update_routes-routes_to ℕ (route_line ∷ []) trackers key
      (record tracker { pings = record tracker.pings { ping_quality = 90 } }) refl
      (λ a h. sym h, tt)

ipv6ll_to_mac-tunnel_example :
    (ipv6ll_to_mac parse_ll tunnel_ll ≡ key)
    × (ipv6ll_to_mac parse_ll tunnel_ll ≡ ipv6ll_to_mac parse_ll tunnel_ll ↔ tunnel_ip ≡ tunnel_ip)
unfolding parse_ip equal link_local mac_string hex_digit
ipv6ll_to_mac-tunnel_example =
    ipv6ll_to_mac-tunnel parse_ll tunnel_ll tunnel_ll tunnel_ip tunnel_ip (omega arith)
      (omega arith) refl refl

abbrev tunnel : Tunnel
tunnel = record no_tunnel { id = 3; is_wireguard = true; wireguard_server_key = codes "key" }

derive_wireguard_peer_ip-other_end_example :
    derive_wireguard_peer_ip (some server_links) (codes "wgs3") ≡ ip4_string (client_ip tunnel_ip)
unfolding interface_name equal itoa
derive_wireguard_peer_ip-other_end_example =
    derive_wireguard_peer_ip-other_end tunnel tunnel_ip server_links
      (record { name = codes "wgs3"; addrs = some (v4 tunnel_ip ∷ []) }) [] (omega arith) refl refl

update_routes-AddUp_example :
    AddUp ℕ (update_routes ℕ (route_line ∷ []) trackers)
    × ((update_routes ℕ (route_line ∷ []) trackers).total_routes
        ≡ length (counted_routes (route_line ∷ [])))
update_routes-AddUp_example = update_routes-AddUp ℕ (route_line ∷ []) trackers
