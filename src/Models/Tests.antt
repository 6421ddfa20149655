-- ===== src/Models/Tests.antt =====
-- internal/db/models/tunnel.go on small tables.
use mesh_manager.Common.{
  ◌≡◌, refl, true, false, List, [], ◌∷◌, Option, none, Bytes, codes, ok, itoa, arith, pos,
}
use mesh_manager.Net.{Ip4, ip4_string, ipv4_of, parse_ip}
use mesh_manager.Config.{Config}
use mesh_manager.Store.Memory.{memory}
use mesh_manager.Models.{Tunnel, TunnelStore, no_tunnel, tunnel_keyed}
use mesh_manager.Models.NextIp.{
  get_next_wireguard_ip, get_next_ip4, highest, higher, advance, Allocates,
  get_next_wireguard_ip-Allocates,
}
use mesh_manager.Models.NextPort.{
  get_next_wireguard_port, scan_ports, used_in, Scanned, get_next_wireguard_port-Scanned,
}

abbrev no_v6 : Bytes → Option Bytes
no_v6 s = none

abbrev config : Config
config = record {
  log_level = codes "info";
  password_salt = codes "salt";
  initial_admin_user_password = [];
  babel = record { enabled = false; router_id = [] };
  olsr = true;
  trusted_proxies = [];
  hibp_api_key = [];
  server_name = codes "KI5VMF";
  supernode = false;
  node_ip = codes "10.0.0.1";
  metrics = record { enabled = false; node_exporter_host = []; port = pos 9100 };
  wireguard = record { starting_address = codes "172.31.0.12"; starting_port = 5527 };
  lqm_enabled = true;
}

abbrev server : Tunnel
server = record no_tunnel {
  id = 1;
  hostname = codes "N0CALL";
  ip = codes "172.31.0.252";
  is_wireguard = true;
  wireguard_server_key = codes "key";
  wireguard_port = 5527;
}

abbrev client : Tunnel
client = record no_tunnel {
  id = 2;
  ip = codes "172.31.9.3";
  client = true;
  is_wireguard = true;
  active = true;
  wireguard_port = 0;
}

abbrev table : List Tunnel
table = server ∷ client ∷ []

abbrev tunnels : TunnelStore
tunnels = memory tunnel_keyed

next_ip : get_next_wireguard_ip tunnels no_v6 table config ≡ ok (codes "172.31.1.0")
unfolding get_next_wireguard_ip get_next_ip4 highest higher advance ipv4_of parse_ip ip4_string itoa
next_ip = refl

next_port : get_next_wireguard_port tunnels table config ≡ ok 5528
unfolding get_next_wireguard_port scan_ports
next_port = refl

abbrev start : Ip4
start = record { o0 = 172; o1 = 31; o2 = 0; o3 = 12 }

abbrev held : Ip4
held = record { o0 = 172; o1 = 31; o2 = 0; o3 = 252 }

get_next_wireguard_ip-Allocates_example :
    Allocates (server ∷ []) (get_next_wireguard_ip tunnels no_v6 table config)
unfolding ipv4_of parse_ip
get_next_wireguard_ip-Allocates_example =
    get_next_wireguard_ip-Allocates tunnels no_v6 table config (server ∷ []) start refl refl
      (omega arith) ((held, refl, omega arith), tt)

get_next_wireguard_port-Scanned_example :
    Scanned (used_in table) 5527 (get_next_wireguard_port tunnels table config)
get_next_wireguard_port-Scanned_example =
    get_next_wireguard_port-Scanned tunnels table config table (omega arith) (omega arith) refl
