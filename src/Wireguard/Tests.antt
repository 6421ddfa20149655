-- ===== src/Wireguard/Tests.antt =====
-- internal/wireguard/wireguard.go on a kernel that records the calls made.
use mesh_manager.Common.{
  ℕ, ◌≡◌, ◌≢◌, ◌↔◌, refl, Bool, true, false, List, [], ◌∷◌, ◌++◌, none, some, Bytes, codes, equal,
  arith, itoa, parse_int, split, equal, if◌then◌else◌,
}
use mesh_manager.Net.{Ip4, parse_ip}
use mesh_manager.Models.{Tunnel, no_tunnel, interface_name}
use mesh_manager.Wireguard.{
  Call, link_set_down, Kernel, World, addrs_are, done, client_ip, link_local,
}
use mesh_manager.Wireguard.SetUp.{
  set_up_peer, set_address, set_link_local, set_device, bring_up, peer_address, add_link_local,
  list_addrs, device_of, add_rules, client_device, server_device, dial_host,
}
use mesh_manager.Wireguard.Address.{client_ip_slots}
use mesh_manager.Wireguard.Calls.{perform_all}
use mesh_manager.Wireguard.Complete.{set_up_peer_succeeds}
use mesh_manager.Wireguard.Plan.{Planned, set_up_peer-Planned}

abbrev refuses_down : Call → Bool
refuses_down (link_set_down iface) = true
refuses_down _ = false

-- A kernel whose state is the calls made so far, and which refuses to take a link down.
abbrev recorder : Kernel
recorder = record {
  State = List Call;
  perform = λ s c. if refuses_down c then none else some (s ++ c ∷ []);
  link_by_name = λ s iface. elim s [ [] ↦ none | c ∷ cs ↦ some true ];
  addr_list = λ s iface n. addrs_are [];
}

abbrev world : World
world = record {
  random = λ n. true;
  parse_v6 = λ s. none;
  parse_key = λ s. some s;
  free_port = some 40000;
  resolve = λ s. none;
}

abbrev key : Bytes
key = codes "AAAAAAAAAAAAAAAAAAAAAAAAAAAAAAAAAAAAAAAAAAA="

abbrev client : Tunnel
client = record no_tunnel {
  id = 7;
  ip = codes "172.31.0.16";
  hostname = codes "44.0.0.1:5527";
  password = key ++ (key ++ key);
  client = true;
  is_wireguard = true;
}

abbrev after_set_up : List Call
after_set_up = elim (set_up_peer recorder world client []) [ done s u ↦ s | _ ↦ [] ]

set_up_peer-Planned_example : Planned recorder world client [] after_set_up
unfolding interface_name itoa equal split set_up_peer set_address set_link_local set_device bring_up
    peer_address add_link_local list_addrs device_of client_device dial_host add_rules parse_ip
    parse_int client_ip link_local
set_up_peer-Planned_example = set_up_peer-Planned recorder world client [] after_set_up tt refl

abbrev slot : ℕ → Ip4
slot n = record { o0 = 172; o1 = 31; o2 = 0; o3 = n }

client_ip_slots_example :
    (client_ip (slot 16) ≡ slot 17)
    × (client_ip (slot 16) ≢ slot 20)
    × (client_ip (slot 16) ≡ client_ip (slot 20) ↔ slot 16 ≡ slot 20)
client_ip_slots_example = client_ip_slots (slot 16) (slot 20) (ground arith) (ground arith)

abbrev server : Tunnel
server = record no_tunnel {
  id = 8;
  ip = codes "172.31.0.20";
  password = key ++ (key ++ key);
  is_wireguard = true;
  wireguard_server_key = key;
  wireguard_port = 5527;
}

abbrev after_server : List Call
after_server = elim (set_up_peer recorder world server []) [ done s u ↦ s | _ ↦ [] ]

abbrev after_address : List Call
after_address = elim (set_address recorder world server []) [ done s a ↦ s | _ ↦ [] ]

set_up_peer_succeeds_example : set_up_peer recorder world server [] ≡ done after_server tt
unfolding interface_name itoa equal split set_up_peer set_address set_link_local set_device bring_up
    peer_address add_link_local list_addrs device_of server_device add_rules parse_ip parse_int
    link_local perform_all
set_up_peer_succeeds_example =
    set_up_peer_succeeds recorder world server (slot 20) key key (λ i. []) [] after_address
      after_server refl refl refl (omega arith) refl (λ i. refl) refl (λ i. refl) refl
