-- ===== src/Wireguard/Calls.antt =====
-- internal/wireguard/wireguard.go: the kernel calls that each step of `addPeer` makes.
use mesh_manager.Common.{
  ℕ, zero, suc, ◌+◌, ◌≡◌, refl, ◌⊎◌, inl, inr, Bool, true, false, List, [], ◌∷◌, ◌++◌, Option, none,
  some, if◌then◌else◌, Bytes, equal, any, arith, subst, Option-cases,
}
use mesh_manager.Net.{Ip4, Ip, v4, v6, parse_ip}
use mesh_manager.Models.{Tunnel, is_server}
use mesh_manager.Wireguard.{
  Call, link_add, link_set_up, addr_add, rule_add, Kernel, World, Run, done, stopped, crashed,
  Device, client_ip, link_local, call, need, Addrs, addrs_are, interrupted, addrs_failed,
}
use mesh_manager.Wireguard.SetUp.{
  bring_up, peer_address, link_local_of, list_addrs, add_link_local, device_of, dial_host,
  add_rules,
}

-- The call for each rule.
abbrev pub rule_calls : Bytes → List (ℕ × ℕ) → List Call
rule_calls iface [] = []
rule_calls iface ((priority, table) ∷ more) = rule_add iface priority table ∷ rule_calls iface more

-- The calls that bring the link up, by what the kernel says of it.
abbrev pub link_calls : Bytes → Option Bool → List Call
link_calls iface none = link_add iface ∷ link_set_up iface ∷ []
link_calls iface (some true) = []
link_calls iface (some false) = link_set_up iface ∷ []

-- The address that the interface of a tunnel has: that of the tunnel for a server, the one above it
-- for a client.
abbrev pub address_of : Bool → Ip4 → Ip4
address_of true q = q
address_of false q = client_ip q

pub Addrs-cases :
    (a : Addrs)
    → ((xs : List Bytes) × (a ≡ addrs_are xs))
      ⊎ (((xs : List Bytes) × (a ≡ interrupted xs)) ⊎ (a ≡ addrs_failed))
Addrs-cases (addrs_are xs) = inl (xs, refl)
Addrs-cases (interrupted xs) = inr (inl (xs, refl))
Addrs-cases addrs_failed = inr (inr refl)

pub Ip-cases :
    (o : Option Ip)
    → (o ≡ none) ⊎ (((q : Ip4) × (o ≡ some (v4 q))) ⊎ ((bs : Bytes) × (o ≡ some (v6 bs))))
Ip-cases none = inl refl
Ip-cases (some (v4 q)) = inr (inl (q, refl))
Ip-cases (some (v6 bs)) = inr (inr (bs, refl))

pub Run-cases :
    {S A : Type 0} (r : Run S A)
    → ((s : S) × (a : A) × (r ≡ done s a))
      ⊎ (((s : S) × (r ≡ stopped s)) ⊎ ((s : S) × (r ≡ crashed s)))
Run-cases (done s a) = inl (s, a, refl)
Run-cases (stopped s) = inr (inl (s, refl))
Run-cases (crashed s) = inr (inr (s, refl))

module _ (k : Kernel) where
  open k use {State, perform, link_by_name}

  -- The kernel after a row of calls that all succeed.
  unfoldable pub perform_all : List Call → State → Option State
  perform_all [] s = some s
  perform_all (c ∷ cs) s = elim (perform s c) [ none ↦ none | some s' ↦ perform_all cs s' ]

  pub perform_all-append :
      (cs ds : List Call) (s s' s'' : State)
      → perform_all cs s ≡ some s'
      → perform_all ds s' ≡ some s''
      → perform_all (cs ++ ds) s ≡ some s''
  unfolding perform_all
  perform_all-append [] ds s s' s'' p q = ground arith
  perform_all-append (c ∷ cs) ds s s' s'' p q = elim (Option-cases (perform s c)) [
    | inl e ↦ ground arith
    | inr (s₁, e) ↦ ground (arith, perform_all-append cs ds s₁ s' s'')
  ]

  pub call-done :
      (c : Call) (s s' : State) (u : Unit {0}) → call k c s ≡ done s' u → perform s c ≡ some s'
  call-done c s s' u h = ground arith

  pub bring_up-done :
      (iface : Bytes) (s s' : State) (u : Unit {0})
      → bring_up k iface s ≡ done s' u
      → perform_all (link_calls iface (link_by_name s iface)) s ≡ some s'
  unfolding bring_up perform_all
  bring_up-done iface s s' u h = ground arith

  pub add_rules-done :
      (iface : Bytes) (rs : List (ℕ × ℕ)) (s s' : State) (u : Unit {0})
      → add_rules k iface rs s ≡ done s' u
      → perform_all (rule_calls iface rs) s ≡ some s'
  unfolding add_rules perform_all
  add_rules-done iface [] s s' u h = ground arith
  add_rules-done iface ((priority, table) ∷ rs) s s' u h =
      elim (Option-cases (perform s (rule_add iface priority table))) [
        | inl e ↦ ground arith
        | inr (s₁, e) ↦ ground (arith, add_rules-done iface rs s₁ s' u)
      ]

  -- The address that is set is IPv4, if a link-local one can be made of it.
  pub peer_address-done :
      (w : World) (t : Tunnel) (s s' : State) (a : Option Ip) (bs : Bytes)
      → peer_address k w t s ≡ done s' a
      → link_local_of k a ≡ some bs
      → (q : Ip4) × (s' ≡ s)
        × (parse_ip w.parse_v6 t.ip ≡ some (v4 q))
        × (a ≡ some (v4 (address_of (is_server t) q)))
        × (bs ≡ link_local (address_of (is_server t) q))
  unfolding peer_address
  peer_address-done w t s s' a bs h e = elim (Ip-cases (parse_ip w.parse_v6 t.ip)) [
    | inl p ↦ ground arith
    | inr (inl (q, p)) ↦ (q, ground arith, p, ground arith, ground arith)
    | inr (inr (b, p)) ↦ ground arith
  ]

  pub need-done :
      {A : Type 0} (o : Option A) (s s' : State) (a : A)
      → need o s ≡ done s' a
      → (s' ≡ s) × (o ≡ some a)
  need-done o s s' a h = ground arith

  pub add_link_local-done :
      (iface address : Bytes) (found : List Bytes) (s s' : State) (u : Unit {0})
      → add_link_local k iface address found s ≡ done s' u
      → perform_all (if any (λ a. equal a address) found then [] else addr_add iface address ∷ []) s
        ≡ some s'
  unfolding add_link_local perform_all
  add_link_local-done iface address found s s' u h = ground arith

  pub list_addrs-done :
      (w : World) (iface : Bytes) (left n : ℕ) (last : List Bytes) (s s' : State)
      (found : List Bytes)
      → list_addrs k w iface left n last s ≡ done s' found
      → s' ≡ s
  unfolding list_addrs
  list_addrs-done w iface zero n last s s' found h = ground arith
  list_addrs-done w iface (suc left) n last s s' found h =
      elim (Addrs-cases (k.addr_list s iface n)) [
        | inl (xs, e) ↦ ground (arith, list_addrs-done w iface left (n + 1) xs s s' found)
        | inr (inl (xs, e)) ↦ ground (arith, list_addrs-done w iface left (n + 1) xs s s' found)
        | inr (inr e) ↦ ground arith
      ]

  -- The addresses that come out are those of the last listing, all of them or those read so far.
  abbrev pub ListedLast : State → Bytes → ℕ → List Bytes → Type 0
  ListedLast s iface n found =
      (k.addr_list s iface n ≡ addrs_are found) ⊎ (k.addr_list s iface n ≡ interrupted found)

  pub list_addrs-ListedLast :
      (w : World) (iface : Bytes) (left n : ℕ) (last : List Bytes) (s s' : State)
      (found : List Bytes)
      → list_addrs k w iface (suc left) n last s ≡ done s' found
      → ListedLast s iface (n + left) found
  unfolding list_addrs
  list_addrs-ListedLast w iface zero n last s s' found h =
      let at : n ≡ n + 0 = omega arith in
      subst (λ i. ListedLast s iface i found) at
        (elim (Addrs-cases (k.addr_list s iface n)) [
          | inl (xs, e) ↦ inl (ground arith)
          | inr (inl (xs, e)) ↦ inr (ground arith)
          | inr (inr e) ↦ ground arith
        ])
  list_addrs-ListedLast w iface (suc left) n last s s' found h =
      let at : (n + 1) + left ≡ n + suc left = omega arith in
      let next : (xs : List Bytes)
          → list_addrs k w iface (suc left) (n + 1) xs s ≡ done s' found
          → ListedLast s iface (n + suc left) found =
        λ xs e.
          subst (λ i. ListedLast s iface i found) at
            (list_addrs-ListedLast w iface left (n + 1) xs s s' found e) in
      elim (Addrs-cases (k.addr_list s iface n)) [
        | inl (xs, e) ↦ next xs (ground arith)
        | inr (inl (xs, e)) ↦ next xs (ground arith)
        | inr (inr e) ↦ ground arith
      ]

  pub device_of-done :
      (w : World) (t : Tunnel) (s s' : State) (device : Device)
      → device_of k w t s ≡ done s' device
      → s' ≡ s
  unfolding device_of dial_host
  device_of-done w t s s' device h = ground arith
