-- ===== src/Wireguard/SetUp.antt =====
-- internal/wireguard/wireguard.go: the body of `addPeer` on the kernel, step by step.
use mesh_manager.Common.{
  ℕ, zero, suc, ◌+◌, true, false, List, [], ◌∷◌, Option, none, some, ltb, if◌then◌else◌, Bytes,
  equal, any, length, take, drop, split, parse_int,
}
use mesh_manager.Net.{Ip, v4, v6, parse_ip}
use mesh_manager.Models.{Tunnel, interface_name, is_server}
use mesh_manager.Wireguard.{
  link_add, link_set_up, addr_replace, addr_add, configure_device, rule_add, Kernel, World, done,
  Device, Addrs, addrs_are, interrupted, addrs_failed, client_ip, link_local, rules, M, ◌>>=◌, ◌>>◌,
  return, give_up, crash, call, need, must, skip,
}

module _ (k : Kernel) where
  open k use {State, link_by_name, addr_list}

  -- The device: found, or added with its flags down.
  unfoldable pub bring_up : Bytes → M State (Unit {0})
  bring_up iface s = elim (link_by_name s iface) [
    | some true ↦ done s tt
    | some false ↦ call k (link_set_up iface) s
    | none ↦ (call k (link_add iface) >> call k (link_set_up iface)) s
  ]

  -- The address for the interface. A client's is indexed, which panics on one that is not IPv4.
  abbrev pub client_address : Option Ip → M State (Option Ip)
  client_address none = crash
  client_address (some (v6 bs)) = crash
  client_address (some (v4 q)) = return (some (v4 (client_ip q)))

  unfoldable pub peer_address : World → Tunnel → M State (Option Ip)
  peer_address w t =
      if is_server t
      then return (parse_ip w.parse_v6 t.ip)
      else client_address (parse_ip w.parse_v6 t.ip)

  abbrev pub link_local_of : Option Ip → Option Bytes
  link_local_of none = none
  link_local_of (some (v6 bs)) = none
  link_local_of (some (v4 q)) = some (link_local q)

  -- The five listings, without a break. An interrupted one gives the addresses read so far; the
  -- error that is tested after the loop is that of `rand.Read`, and is nil.
  abbrev pub listed : Addrs → M State (List Bytes)
  listed (addrs_are found) = return found
  listed (interrupted partial) = return partial
  listed addrs_failed = give_up

  unfoldable pub list_addrs : World → Bytes → ℕ → ℕ → List Bytes → M State (List Bytes)
  list_addrs w iface zero n last = return last
  list_addrs w iface (suc left) n last = do
    found ← λ s. listed (addr_list s iface n) s
    if w.random n then skip else give_up
    list_addrs w iface left (n + 1) found

  -- The link-local address is added unless it is listed.
  unfoldable pub add_link_local : Bytes → Bytes → List Bytes → M State (Unit {0})
  add_link_local iface address found =
      if any (λ a. equal a address) found then skip else call k (addr_add iface address)

  -- `s[:n]` and `s[n:]` on a string, which panic beyond its end.
  abbrev pub prefix_of : ℕ → Bytes → M State Bytes
  prefix_of n s = if ltb (length s) n then crash else return (take n s)

  abbrev pub suffix_of : ℕ → Bytes → M State Bytes
  suffix_of n s = if ltb (length s) n then crash else return (drop n s)

  -- A server's device: its own key, and the client's public key at the end of the password.
  unfoldable pub server_device : World → Tunnel → M State Device
  server_device w t = do
    private ← need (w.parse_key t.wireguard_server_key)
    part ← suffix_of 88 t.password
    client ← need (w.parse_key part)
    return (record {
      private_key = private;
      listen_port = t.wireguard_port;
      peer_key = client;
      endpoint = none;
    })

  -- The host to dial: an address as it stands, or the first one that the name resolves to.
  abbrev pub first_resolved : Option (List Bytes) → M State Bytes
  first_resolved none = give_up
  first_resolved (some []) = give_up
  first_resolved (some (a ∷ more)) = return a

  unfoldable pub dial_host : World → Bytes → M State Bytes
  dial_host w host = elim (parse_ip w.parse_v6 host) [
    | some ip ↦ return host
    | none ↦ first_resolved (w.resolve host)
  ]

  abbrev pub two_parts : List Bytes → M State (Bytes × Bytes)
  two_parts (a ∷ b ∷ []) = return (a, b)
  two_parts _ = give_up

  -- A client's device: the server's public key, its own private key and its own public key stand in
  -- the password one after the other.
  unfoldable pub client_device : World → Tunnel → M State Device
  unfolding dial_host
  client_device w t = do
    listen ← must w.free_port
    server_part ← prefix_of 44 t.password
    server ← need (w.parse_key server_part)
    _ ← suffix_of 88 t.password
    private ← need (w.parse_key (drop 44 (take 88 t.password)))
    (host, port_part) ← two_parts (split b':' t.hostname)
    port ← need (parse_int 2147483647 port_part)
    dialled ← dial_host w host
    return (record {
      private_key = private;
      listen_port = listen;
      peer_key = server;
      endpoint = some (record { host = dialled; port = port });
    })

  unfoldable pub device_of : World → Tunnel → M State Device
  unfolding server_device client_device
  device_of w t = if is_server t then server_device w t else client_device w t

  unfoldable pub add_rules : Bytes → List (ℕ × ℕ) → M State (Unit {0})
  add_rules iface [] = skip
  add_rules iface ((priority, table) ∷ more) = do
    call k (rule_add iface priority table)
    add_rules iface more

  -- The link with its IPv4 address; the link-local address for it is the result.
  unfoldable pub set_address : World → Tunnel → M State Bytes
  set_address w t = do
    bring_up (interface_name t)
    address ← peer_address w t
    call k (addr_replace (interface_name t) address)
    need (link_local_of address)

  unfoldable pub set_link_local : World → Tunnel → Bytes → M State (Unit {0})
  set_link_local w t address6 = do
    found ← list_addrs w (interface_name t) 5 0 []
    add_link_local (interface_name t) address6 found

  unfoldable pub set_device : World → Tunnel → M State (Unit {0})
  set_device w t = do
    device ← device_of w t
    call k (configure_device (interface_name t) device)
    add_rules (interface_name t) rules

  -- `addPeer` up to the two last lines, which record and confirm the peer.
  unfoldable pub set_up_peer : World → Tunnel → M State (Unit {0})
  set_up_peer w t = do address6 ← set_address w t; set_link_local w t address6; set_device w t
