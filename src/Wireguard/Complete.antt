-- ===== src/Wireguard/Complete.antt =====
-- internal/wireguard/wireguard.go: `addPeer` for a server's tunnel, when the kernel does not
-- refuse.
use mesh_manager.Common.{
  ℕ, zero, suc, ◌+◌, ◌≤◌, ltb, ◌≡◌, refl, inl, inr, true, false, List, [], ◌∷◌, ◌++◌, none, some,
  if◌then◌else◌, Bytes, equal, any, length, drop, arith, subst, Option-cases,
}
use mesh_manager.Net.{Ip4, v4, parse_ip}
use mesh_manager.Models.{Tunnel, interface_name, is_server}
use mesh_manager.Wireguard.{
  addr_replace, addr_add, configure_device, rule_add, Kernel, World, done, Device, addrs_are,
  link_local, rules,
}
use mesh_manager.Wireguard.SetUp.{
  bring_up, peer_address, list_addrs, add_link_local, device_of, server_device, add_rules,
  set_up_peer, set_address, set_link_local, set_device,
}
use mesh_manager.Wireguard.Calls.{rule_calls, link_calls, perform_all}

wide_enough : (m n : ℕ) → m ≤ n → ltb n m ≡ false
wide_enough m n h = ground arith

module _ (k : Kernel) where
  open k use {State, perform, link_by_name}

  perform_all-split :
      (cs ds : List _) (s s' : State)
      → perform_all k (cs ++ ds) s ≡ some s'
      → (s₁ : State) × (perform_all k cs s ≡ some s₁) × (perform_all k ds s₁ ≡ some s')
  unfolding perform_all
  perform_all-split [] ds s s' p = (s, refl, p)
  perform_all-split (c ∷ cs) ds s s' p = elim (Option-cases (perform s c)) [
    | inl e ↦ ground arith
    | inr (s₁, e) ↦
        let (s₂, before, after) = perform_all-split cs ds s₁ s' (ground arith) in
        (s₂, ground arith, after)
  ]

  bring_up_performs :
      (iface : Bytes) (s s' : State)
      → perform_all k (link_calls iface (link_by_name s iface)) s ≡ some s'
      → bring_up k iface s ≡ done s' tt
  unfolding bring_up perform_all
  bring_up_performs iface s s' h = ground arith

  add_rules_performs :
      (iface : Bytes) (rs : List (ℕ × ℕ)) (s s' : State)
      → perform_all k (rule_calls iface rs) s ≡ some s'
      → add_rules k iface rs s ≡ done s' tt
  unfolding add_rules perform_all
  add_rules_performs iface [] s s' h = ground arith
  add_rules_performs iface ((priority, table) ∷ rs) s s' h =
      elim (Option-cases (perform s (rule_add iface priority table))) [
        | inl e ↦ ground arith
        | inr (s₁, e) ↦ ground (arith, add_rules_performs iface rs s₁ s')
      ]

  list_addrs_gives :
      (w : World) (iface : Bytes) (left n : ℕ) (last : List Bytes) (lists : ℕ → List Bytes)
      (s : State)
      → ((i : ℕ) → w.random i ≡ true)
      → ((i : ℕ) → k.addr_list s iface i ≡ addrs_are (lists i))
      → list_addrs k w iface (suc left) n last s ≡ done s (lists (n + left))
  unfolding list_addrs
  list_addrs_gives w iface zero n last lists s luck given =
      let at : n ≡ n + 0 = omega arith in
      let once : list_addrs k w iface 1 n last s ≡ done s (lists n) =
        ground (arith, luck n, given n) in
      subst (λ i. list_addrs k w iface 1 n last s ≡ done s (lists i)) at once
  list_addrs_gives w iface (suc left) n last lists s luck given =
      let at : (n + 1) + left ≡ n + suc left = omega arith in
      let rest =
        subst (λ i. list_addrs k w iface (suc left) (n + 1) (lists n) s ≡ done s (lists i)) at
          (list_addrs_gives w iface left (n + 1) (lists n) lists s luck given) in
      ground (arith, luck n, given n, rest)

  add_link_local_performs :
      (iface address : Bytes) (found : List Bytes) (s s' : State)
      → perform_all k
          (if any (λ a. equal a address) found then [] else addr_add iface address ∷ [])
          s
        ≡ some s'
      → add_link_local k iface address found s ≡ done s' tt
  unfolding add_link_local perform_all
  add_link_local_performs iface address found s s' h = ground arith

  server_device_gives :
      (w : World) (t : Tunnel) (private client : Bytes) (s : State)
      → is_server t ≡ true
      → w.parse_key t.wireguard_server_key ≡ some private
      → 88 ≤ length t.password
      → w.parse_key (drop 88 t.password) ≡ some client
      → device_of k w t s
        ≡ done s (record {
          private_key = private;
          listen_port = t.wireguard_port;
          peer_key = client;
          endpoint = none;
        })
  unfolding device_of server_device
  server_device_gives w t private client s server p long c =
      let fits : ltb (length t.password) 88 ≡ false = wide_enough 88 (length t.password) long in
      rw (server, p, fits, c) refl

  set_address_performs :
      (w : World) (t : Tunnel) (q : Ip4) (s s' : State)
      → is_server t ≡ true
      → parse_ip w.parse_v6 t.ip ≡ some (v4 q)
      → perform_all k
          (link_calls (interface_name t) (link_by_name s (interface_name t))
            ++ addr_replace (interface_name t) (some (v4 q)) ∷ [])
          s
        ≡ some s'
      → set_address k w t s ≡ done s' (link_local q)
  unfolding set_address peer_address
  set_address_performs w t q s s' server p h =
      let (s₁, before, after) =
        perform_all-split (link_calls (interface_name t) (link_by_name s (interface_name t)))
          (addr_replace (interface_name t) (some (v4 q)) ∷ []) s s' h in
      let called : perform s₁ (addr_replace (interface_name t) (some (v4 q))) ≡ some s' =
        unfold perform_all in ground arith in
      ground (arith, bring_up_performs (interface_name t) s s₁ before)

  set_device_performs :
      (w : World) (t : Tunnel) (device : Device) (s s' : State)
      → device_of k w t s ≡ done s device
      → perform_all k
          (configure_device (interface_name t) device ∷ rule_calls (interface_name t) rules)
          s
        ≡ some s'
      → set_device k w t s ≡ done s' tt
  unfolding set_device perform_all
  set_device_performs w t device s s' e h =
      elim (Option-cases (perform s (configure_device (interface_name t) device))) [
        | inl f ↦ ground arith
        | inr (s₁, f) ↦
            let ruled : perform_all k (rule_calls (interface_name t) rules) s₁ ≡ some s' =
              ground arith in
            ground (arith, add_rules_performs (interface_name t) rules s₁ s' ruled)
      ]

  finished :
      (w : World) (t : Tunnel) (q : Ip4) (s s₁ s₂ s' : State) (found : List Bytes)
      → set_address k w t s ≡ done s₁ (link_local q)
      → list_addrs k w (interface_name t) 5 0 [] s₁ ≡ done s₁ found
      → add_link_local k (interface_name t) (link_local q) found s₁ ≡ done s₂ tt
      → set_device k w t s₂ ≡ done s' tt
      → set_up_peer k w t s ≡ done s' tt
  unfolding set_up_peer set_link_local
  finished w t q s s₁ s₂ s' found a b c d = ground arith

  -- The device of a server's tunnel.
  abbrev pub server_keys : Tunnel → Bytes → Bytes → Device
  server_keys t private client = record {
    private_key = private;
    listen_port = t.wireguard_port;
    peer_key = client;
    endpoint = none;
  }

  -- A server's tunnel is set up, and the kernel ends in `s'`, when its address is IPv4, its
  -- password has at least 88 bytes, both keys are read, random numbers do not fail, and the kernel
  -- does what is asked of it: it brings the link up and sets the address, it then answers the five
  -- listings of the interface, and performs the rest, in which the link-local address is added if
  -- the fifth listing does not have it.
  pub set_up_peer_succeeds :
      (w : World) (t : Tunnel) (q : Ip4) (private client : Bytes) (lists : ℕ → List Bytes)
      (s s₁ s' : State)
      → is_server t ≡ true
      → parse_ip w.parse_v6 t.ip ≡ some (v4 q)
      → w.parse_key t.wireguard_server_key ≡ some private
      → 88 ≤ length t.password
      → w.parse_key (drop 88 t.password) ≡ some client
      → ((i : ℕ) → w.random i ≡ true)
      → perform_all k
          (link_calls (interface_name t) (link_by_name s (interface_name t))
            ++ addr_replace (interface_name t) (some (v4 q)) ∷ [])
          s
        ≡ some s₁
      → ((i : ℕ) → k.addr_list s₁ (interface_name t) i ≡ addrs_are (lists i))
      → perform_all k
          ((if any (λ a. equal a (link_local q)) (lists 4)
              then []
              else addr_add (interface_name t) (link_local q) ∷ [])
            ++ (configure_device (interface_name t) (server_keys t private client)
                ∷ rule_calls (interface_name t) rules))
          s₁
        ≡ some s'
      → set_up_peer k w t s ≡ done s' tt
  set_up_peer_succeeds w t q private client lists s s₁ s' server read p long c luck first given
        more =
      let (s₂, second, third) =
        perform_all-split
          (if any (λ a. equal a (link_local q)) (lists 4)
            then []
            else addr_add (interface_name t) (link_local q) ∷ [])
          _ s₁ s' more in
      let addressed = set_address_performs w t q s s₁ server read first in
      let listed = list_addrs_gives w (interface_name t) 4 0 [] lists s₁ luck given in
      let added =
        add_link_local_performs (interface_name t) (link_local q) (lists 4) s₁ s₂ second in
      let configured =
        set_device_performs w t (server_keys t private client) s₂ s'
          (server_device_gives w t private client s₂ server p long c) third in
      finished w t q s s₁ s₂ s' (lists 4) addressed listed added configured
