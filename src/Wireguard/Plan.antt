-- ===== src/Wireguard/Plan.antt =====
-- internal/wireguard/wireguard.go: the calls that a successful `addPeer` has made, in their order.
use mesh_manager.Common.{
  ◌≡◌, inl, inr, List, [], ◌∷◌, ◌++◌, some, if◌then◌else◌, Bytes, equal, any, arith, Option-cases,
}
use mesh_manager.Net.{Ip4, v4, parse_ip}
use mesh_manager.Models.{Tunnel, interface_name, is_server}
use mesh_manager.Wireguard.{
  addr_replace, addr_add, configure_device, Kernel, World, done, Device, link_local, rules, call,
  need, ◌>>=◌,
}
use mesh_manager.Wireguard.SetUp.{
  bring_up, peer_address, link_local_of, list_addrs, device_of, set_up_peer, set_address,
  set_link_local, set_device,
}
use mesh_manager.Wireguard.Devices.{IsDevice, device_of-IsDevice}
use mesh_manager.Wireguard.Calls.{
  rule_calls, link_calls, address_of, Run-cases, perform_all, perform_all-append, bring_up-done,
  peer_address-done, add_link_local-done, list_addrs-done, device_of-done, ListedLast,
  list_addrs-ListedLast, add_rules-done,
}

-- The address that is set once the link is up.
set_address_rest :
    (k : Kernel) (w : World) (t : Tunnel) (s s₁ s' : k.State) (up : Unit {0}) (bs : Bytes)
    → bring_up k (interface_name t) s ≡ done s₁ up
    → ◌>>=◌
        (peer_address k w t)
        (λ a. ◌>>=◌ (call k (addr_replace (interface_name t) a)) (λ _. need (link_local_of k a)))
        s₁
      ≡ done s' bs
    → (q : Ip4) × (parse_ip w.parse_v6 t.ip ≡ some (v4 q))
      × (bs ≡ link_local (address_of (is_server t) q))
      × (perform_all k
            (link_calls (interface_name t) (k.link_by_name s (interface_name t))
              ++ addr_replace (interface_name t) (some (v4 (address_of (is_server t) q))) ∷ [])
            s
          ≡ some s')
set_address_rest k w t s s₁ s' up bs begun h = elim (Run-cases (peer_address k w t s₁)) [
  | inl (s₂, a, e) ↦
      let made : link_local_of k a ≡ some bs = ground arith in
      let (q, same, read, is, local) = peer_address-done k w t s₁ s₂ a bs e made in
      let called : k.perform s₁
            (addr_replace (interface_name t) (some (v4 (address_of (is_server t) q))))
          ≡ some s' =
        ground arith in
      (
        q,
        read,
        local,
        perform_all-append k (link_calls (interface_name t) (k.link_by_name s (interface_name t)))
            (addr_replace (interface_name t) (some (v4 (address_of (is_server t) q))) ∷ []) s s₁ s'
            (bring_up-done k (interface_name t) s s₁ up begun) (unfold perform_all in ground arith),
      )
  | inr (inl (s₂, e)) ↦ ground arith
  | inr (inr (s₂, e)) ↦ ground arith
]

set_address-done :
    (k : Kernel) (w : World) (t : Tunnel) (s s' : k.State) (bs : Bytes)
    → set_address k w t s ≡ done s' bs
    → (q : Ip4) × (parse_ip w.parse_v6 t.ip ≡ some (v4 q))
      × (bs ≡ link_local (address_of (is_server t) q))
      × (perform_all k
            (link_calls (interface_name t) (k.link_by_name s (interface_name t))
              ++ addr_replace (interface_name t) (some (v4 (address_of (is_server t) q))) ∷ [])
            s
          ≡ some s')
unfolding set_address
set_address-done k w t s s' bs h = elim (Run-cases (bring_up k (interface_name t) s)) [
  | inl (s₁, up, e) ↦ set_address_rest k w t s s₁ s' up bs e (ground arith)
  | inr (inl (s₁, e)) ↦ ground arith
  | inr (inr (s₁, e)) ↦ ground arith
]

set_link_local-done :
    (k : Kernel) (w : World) (t : Tunnel) (address6 : Bytes) (s s' : k.State) (u : Unit {0})
    → set_link_local k w t address6 s ≡ done s' u
    → (found : List Bytes) × ListedLast k s (interface_name t) 4 found
      × (perform_all k
            (if any (λ a. equal a address6) found
              then []
              else addr_add (interface_name t) address6 ∷ [])
            s
          ≡ some s')
unfolding set_link_local
set_link_local-done k w t address6 s s' u h =
    elim (Run-cases (list_addrs k w (interface_name t) 5 0 [] s)) [
      | inl (s₁, found, e) ↦ (
        found,
        list_addrs-ListedLast k w (interface_name t) 4 0 [] s s₁ found e,
        ground (
          arith,
          list_addrs-done k w (interface_name t) 5 0 [] s s₁ found e,
          add_link_local-done k (interface_name t) address6 found s s' u,
        ),
      )
      | inr (inl (s₁, e)) ↦ ground arith
      | inr (inr (s₁, e)) ↦ ground arith
    ]

set_device-done :
    (k : Kernel) (w : World) (t : Tunnel) (s s' : k.State) (u : Unit {0})
    → set_device k w t s ≡ done s' u
    → (device : Device) × IsDevice w t device
      × (perform_all k
            (configure_device (interface_name t) device ∷ rule_calls (interface_name t) rules)
            s
          ≡ some s')
unfolding set_device
set_device-done k w t s s' u h = elim (Run-cases (device_of k w t s)) [
  | inl (s₁, device, e) ↦
      elim (Option-cases (k.perform s (configure_device (interface_name t) device))) [
        | inl no_call ↦ ground (arith, device_of-done k w t s s₁ device e)
        | inr (s₂, called) ↦ (
          device,
          device_of-IsDevice k w t s s₁ device e,
          unfold perform_all in
              ground (
                arith,
                device_of-done k w t s s₁ device e,
                add_rules-done k (interface_name t) rules s₂ s' u,
              ),
        )
      ]
  | inr (inl (s₁, e)) ↦ ground arith
  | inr (inr (s₁, e)) ↦ ground arith
]

-- What `addPeer` has done when it succeeds: the tunnel's address is IPv4; the first calls bring the
-- link up and set the interface's address; the kernel in between has listed the addresses of the
-- interface; the other calls add the link-local address unless the last listing has it, configure
-- the device, and add the six rules.
pub record Planned (k : Kernel) (w : World) (t : Tunnel) (s s' : k.State) : Type 0 where
  pub address : Ip4
  pub device : Device
  pub middle : k.State
  pub found : List Bytes
  pub address_is : parse_ip w.parse_v6 t.ip ≡ some (v4 address)
  pub device_is : IsDevice w t device
  pub first_calls :
      perform_all k
        (link_calls (interface_name t) (k.link_by_name s (interface_name t))
          ++ addr_replace (interface_name t) (some (v4 (address_of (is_server t) address))) ∷ [])
        s
      ≡ some middle
  pub found_is : ListedLast k middle (interface_name t) 4 found
  pub other_calls :
      perform_all k
        ((if any (λ a. equal a (link_local (address_of (is_server t) address))) found
            then []
            else addr_add (interface_name t) (link_local (address_of (is_server t) address)) ∷ [])
          ++ (configure_device (interface_name t) device ∷ rule_calls (interface_name t) rules))
        middle
      ≡ some s'

-- When a peer is set up, the calls that were made are these, in this order and no other ones: those
-- that bring the link up, the one that sets its address (the tunnel's, or one above it for a
-- client), the one that adds the link-local address of that unless the interface's last listing has
-- it, the one that configures the device, and the six rules. The device has the keys and the
-- endpoint that the tunnel's record says for its side, and the tunnel's port for a server, a free
-- one for a client.
pub set_up_peer-Planned :
    (k : Kernel) (w : World) (t : Tunnel) (s s' : k.State) (u : Unit {0})
    → set_up_peer k w t s ≡ done s' u
    → Planned k w t s s'
unfolding set_up_peer
set_up_peer-Planned k w t s s' u h = elim (Run-cases (set_address k w t s)) [
  | inl (s₁, bs, e) ↦ elim (Run-cases (set_link_local k w t bs s₁)) [
    | inl (s₂, v, e') ↦
        let (q, read, local, first) = set_address-done k w t s s₁ bs e in
        let (found, listing, second) = set_link_local-done k w t bs s₁ s₂ v e' in
        let (device, kind, third) = set_device-done k w t s₂ s' u (ground arith) in
        record {
          address = q;
          device = device;
          middle = s₁;
          found = found;
          address_is = read;
          device_is = kind;
          first_calls = first;
          found_is = listing;
          other_calls = rw local at (
              perform_all-append k
                (if any (λ a. equal a bs) found then [] else addr_add (interface_name t) bs ∷ [])
                (configure_device (interface_name t) device ∷ rule_calls (interface_name t) rules)
                s₁ s₂ s' second third);
        }
    | inr (inl (s₂, e')) ↦ ground arith
    | inr (inr (s₂, e')) ↦ ground arith
  ]
  | inr (inl (s₁, e)) ↦ ground arith
  | inr (inr (s₁, e)) ↦ ground arith
]
