-- ===== src/Watcher/Tests.antt =====
-- internal/ifacewatcher/watcher.go on a few interfaces.
use mesh_manager.Common.{
  ◌≡◌, refl, inl, true, [], ◌∷◌, none, some, Bytes, codes, equal, arith, has_prefix, itoa,
  if◌then◌else◌,
}
use mesh_manager.Net.{Ip4, v4, ip4_string}
use mesh_manager.Store.Memory.{memory}
use mesh_manager.Models.{Tunnel, TunnelStore, no_tunnel, tunnel_keyed, interface_name}
use mesh_manager.Bandwidth.{new_stat_counter}
use mesh_manager.Bandwidth.Manager.{Manager}
use mesh_manager.Watcher.{NetInterface, Iface, Host}
use mesh_manager.Watcher.Drop.{gone}
use mesh_manager.Watcher.Attach.{tunnel_is, find_tunnel}
use mesh_manager.Watcher.Attach.Addresses.{find_tunnel-address}

abbrev tunnels : TunnelStore
tunnels = memory tunnel_keyed

abbrev server : Tunnel
server = record no_tunnel {
  id = 1;
  ip = codes "172.31.0.16";
  is_wireguard = true;
  wireguard_server_key = codes "key";
  rx_bytes = 7;
}

abbrev net : Bytes → NetInterface
net name = record { name = name; index = 3; hardware_addr = [] }

abbrev watched_iface : Bytes → Iface
watched_iface name = record { net = net name; tunnel = server }

abbrev a : Iface
a = watched_iface (codes "wgs1")

abbrev b : Iface
b = watched_iface (codes "wgs2")

abbrev c : Iface
c = watched_iface (codes "wgs3")

-- Only the third interface has a fresh handshake.
abbrev host : Host
host = record {
  interfaces = some [];
  device = λ name.
      if equal name (codes "wgs3") then some (record { since_handshake = some 4 } ∷ []) else none;
  addrs = λ name. some (some (v4 (record { o0 = 172; o1 = 31; o2 = 0; o3 = 16 })) ∷ []);
  link = λ name. none;
  now = 1000;
}

abbrev stats : Manager
stats = record {
  counters = (codes "wgs1", new_stat_counter (codes "wgs1")) ∷ [];
  is_running = true;
  total_rx = 0;
  total_tx = 0;
  total_rx_bandwidth = 0;
  total_tx_bandwidth = 0;
}

-- The second interface is gone too.
second_gone : gone host [] b ≡ true
unfolding gone equal has_prefix
second_gone = refl

find_tunnel-address_example :
    (find_tunnel tunnels (server ∷ []) host (interface_name server) ≡ tunnel_is server)
    × (server.ip ≡ ip4_string (record { o0 = 172; o1 = 31; o2 = 0; o3 = 16 }))
unfolding equal ip4_string itoa
find_tunnel-address_example =
    find_tunnel-address tunnels (server ∷ []) host server
      (record { o0 = 172; o1 = 31; o2 = 0; o3 = 16 }) [] server [] (omega arith) (inl refl) refl
      refl

abbrev last : Ip4
last = record { o0 = 172; o1 = 31; o2 = 0; o3 = 255 }

abbrev client : Tunnel
client = record no_tunnel { id = 2; ip = codes "172.31.0.255"; client = true; is_wireguard = true }

abbrev client_host : Host
client_host = record host {
  addrs = λ name. some (some (v4 (record { o0 = 172; o1 = 31; o2 = 1; o3 = 1 })) ∷ []);
}

abbrev came : Iface
came = record { net = net (codes "wgc2"); tunnel = client }
