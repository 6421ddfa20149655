-- ===== src/Wireguard/Manager/Tests.antt =====
-- internal/wireguard/wireguard.go: two calls at once, on a kernel that refuses nothing.
use mesh_manager.Common.{
  ℕ, suc, ◌+◌, ◌≡◌, refl, true, List, [], ◌∷◌, ◌++◌, some, none, Bytes, codes, itoa, equal, split,
  parse_int, arith, store,
}
use mesh_manager.Net.{parse_ip}
use mesh_manager.Models.{
  Tunnel, no_tunnel, tunnel_keyed, TunnelStore, interface_name, list_wireguard_tunnels,
}
use mesh_manager.Store.Memory.{memory}
use mesh_manager.Wireguard.{Kernel, World, addrs_are, client_ip, link_local}
use mesh_manager.Wireguard.SetUp.{
  set_up_peer, set_address, set_link_local, set_device, bring_up, peer_address, add_link_local,
  list_addrs, device_of, add_rules, client_device, dial_host,
}
use mesh_manager.Wireguard.Peers.{Peers, Outcome, confirmed, add_peer}
use mesh_manager.Wireguard.Manager.{
  Process, Manager, adding, asking, Steps, stays, started, tally, initialize_tunnels,
}
use mesh_manager.Wireguard.Manager.Confirmations.{
  in_transit, ended_call, all_made, confirmations_add_up,
}
use mesh_manager.Wireguard.Manager.Deadlock.{crossed, crossing, holder, initialize_tunnels_deadlock}

-- A kernel that counts the calls.
abbrev counting : Kernel
counting = record {
  State = ℕ;
  perform = λ s c. some (suc s);
  link_by_name = λ s iface. some true;
  addr_list = λ s iface n. addrs_are [];
}

abbrev world : World
world = record {
  random = λ n. true;
  parse_v6 = λ s. none;
  parse_key = λ s. some s;
  free_port = some 40000;
  resolve = λ s. none;
}

abbrev key : Bytes
key = codes "AAAAAAAAAAAAAAAAAAAAAAAAAAAAAAAAAAAAAAAAAAA="

abbrev first : Tunnel
first = record no_tunnel {
  id = 7;
  ip = codes "172.31.0.16";
  hostname = codes "44.0.0.1:5527";
  password = key ++ (key ++ key);
  enabled = true;
  client = true;
  is_wireguard = true;
}

abbrev second : Tunnel
second = record first { id = 8; ip = codes "172.31.0.20" }

abbrev both : Peers
both = (interface_name first, first) ∷ (interface_name second, second) ∷ []

abbrev tunnels : TunnelStore
tunnels = memory tunnel_keyed

abbrev calls_made : Outcome ℕ → ℕ
calls_made (confirmed n peers) = n
calls_made _ = 0

abbrev after_first : ℕ
after_first = calls_made (add_peer counting world first 0 [])

abbrev first_up : Peers
first_up = (interface_name first, first) ∷ []

abbrev after_second : ℕ
after_second = calls_made (add_peer counting world second after_first first_up)

first_added : add_peer counting world first 0 [] ≡ confirmed after_first first_up
unfolding add_peer interface_name itoa equal split set_up_peer set_address set_link_local set_device
    bring_up peer_address add_link_local list_addrs device_of client_device dial_host add_rules
    parse_ip parse_int client_ip link_local store
first_added = refl

second_added : add_peer counting world second after_first first_up ≡ confirmed after_second both
unfolding add_peer interface_name itoa equal split set_up_peer set_address set_link_local set_device
    bring_up peer_address add_link_local list_addrs device_of client_device dial_host add_rules
    parse_ip parse_int client_ip link_local store
second_added = refl

abbrev at_start : Manager ℕ
at_start = started counting world (asking adding first ∷ asking adding second ∷ []) 0

abbrev at_end : Manager ℕ
at_end = crossed first second after_second both

abbrev trace : Steps counting world at_start at_end
trace = crossing first second 0 after_first after_second first_up both first_added second_added

confirmations_add_up_example :
    tally (in_transit adding 7) at_end.processes + tally (ended_call adding 7) at_end.processes
    ≡ tally (in_transit adding 7) at_start.processes
      + tally (ended_call adding 7) at_start.processes
      + all_made adding 7 trace
confirmations_add_up_example = confirmations_add_up adding 7 trace (omega arith)

initialize_tunnels_deadlock_example :
    (ps : List Process) × (initialize_tunnels counting world tunnels (first ∷ second ∷ [])
      ≡ some ps)
    × Steps counting world (started counting world ps 0) at_end
    × (tally (holder adding) at_end.processes ≡ 2)
unfolding list_wireguard_tunnels
initialize_tunnels_deadlock_example =
    initialize_tunnels_deadlock counting world tunnels (first ∷ second ∷ []) first second 0
      after_first after_second first_up both at_end refl refl refl (ground arith) first_added
      second_added stays refl
