-- ===== src/Watcher/Attach.antt =====
-- internal/ifacewatcher/watcher.go: `findTunnel` and the second loop of `watch`.
pub mod Addresses
use mesh_manager.Common.{
  ℕ, ◌+◌, ◌-◌, ◌%◌, ◌≤◌, ◌<◌, ◌≡◌, ◌≢◌, refl, sym, ap, ◌∙◌, ◌⊎◌, inl, inr, Bool, true, false, not,
  ◌&&◌, ◌||◌, List, [], ◌∷◌, ◌++◌, Option, none, some, if◌then◌else◌, Bytes, codes, equal,
  has_prefix, length, arith,
}
use mesh_manager.Net.{Ip4, Ip, v4, v6}
use mesh_manager.Models.{
  Tunnel, TunnelStore, no_tunnel, First, found, not_found, failed, find_tunnel_by_ip,
}
use mesh_manager.Bandwidth.Manager.{Manager, add}
use mesh_manager.Bandwidth.{Link}
use mesh_manager.Watcher.{
  NetInterface, Iface, Event, Host, watched_contains, is_wg, is_tun, wg_interface_active,
}

-- The outcome of `findTunnel`: it can panic, when it indexes an address that is not IPv4.
pub data Lookup : Type 0 where
  panics : Lookup
  nothing : Lookup
  tunnel_is : Tunnel → Lookup

-- `ip[3] -= k` on a byte, and `ip[3]++`.
abbrev pub lower_by : ℕ → Ip4 → Ip4
lower_by k q = record q { o3 = (q.o3 + 256 - k) % 256 }

abbrev pub raise : Ip4 → Ip4
raise q = record q { o3 = (q.o3 + 1) % 256 }

-- What one address of the interface gives: a result, or the next address.
pub data Attempt : Type 0 where
  gives : Lookup → Attempt
  goes_on : Attempt

abbrev taken : First Tunnel → Attempt
taken (found t) = gives (tunnel_is t)
taken not_found = goes_on
taken failed = goes_on

module _ (s : TunnelStore) where
  open s use {Db}

  -- The look-up for a Wireguard interface at an IPv4 address. A name that begins with neither `wgs`
  -- nor `wgc` leaves the tunnel as it was declared, and no error.
  attempt_wg : Db → Bytes → Ip4 → Attempt
  attempt_wg d name q =
      if has_prefix name (codes "wgs")
      then taken (find_tunnel_by_ip s d (some q))
      else if has_prefix name (codes "wgc")
      then taken (find_tunnel_by_ip s d (some (lower_by 1 q)))
      else gives (tunnel_is no_tunnel)

  -- The look-up for a legacy interface: as a client's, then as a server's.
  attempt_tun : Db → Ip4 → Attempt
  attempt_tun d q = elim (find_tunnel_by_ip s d (some (lower_by 2 q))) [
    | found t ↦ gives (tunnel_is t)
    | _ ↦ taken (find_tunnel_by_ip s d (some (raise (lower_by 2 q))))
  ]

  attempt4 : Db → Bytes → Ip4 → Attempt
  unfolding attempt_wg attempt_tun is_wg is_tun
  attempt4 d name q =
      if is_wg name
      then attempt_wg d name q
      else if is_tun name
      then attempt_tun d q
      else gives (tunnel_is no_tunnel)

  -- An address that is not IPv4: `To4` gives nil, and indexing that panics.
  attempt6 : Db → Bytes → Attempt
  attempt6 d name =
      if is_wg name
      then if has_prefix name (codes "wgs")
        then taken (find_tunnel_by_ip s d none)
        else if has_prefix name (codes "wgc")
        then gives panics
        else gives (tunnel_is no_tunnel)
      else if is_tun name
      then gives panics
      else gives (tunnel_is no_tunnel)

  attempt : Db → Bytes → Option Ip → Attempt
  unfolding attempt4 attempt6
  attempt d name none = goes_on
  attempt d name (some (v4 q)) = attempt4 d name q
  attempt d name (some (v6 bs)) = attempt6 d name

  first_attempt : Db → Bytes → List (Option Ip) → Lookup
  unfolding attempt
  first_attempt d name [] = nothing
  first_attempt d name (a ∷ more) = elim (attempt d name a) [
    | gives r ↦ r
    | goes_on ↦ first_attempt d name more
  ]

  pub find_tunnel : Db → Host → Bytes → Lookup
  unfolding first_attempt
  find_tunnel d h name = elim (h.addrs name) [
    | none ↦ nothing
    | some addresses ↦ first_attempt d name addresses
  ]

pub record Growth : Type 0 where
  pub interfaces : List Iface
  pub stats : Manager

-- An interface of the host that is to be watched and is not.
pub is_new : Host → List Iface → NetInterface → Bool
unfolding is_wg is_tun wg_interface_active watched_contains
is_new h watched e =
    (is_wg e.name && wg_interface_active h e.name && not (watched_contains watched e))
    || (is_tun e.name && not (watched_contains watched e))

-- What follows a successful look-up: the counter is added, and then the interface.
pub attach_found : Host → Growth → NetInterface → Tunnel → Growth
attach_found h g e t =
    let (err, stats) = add g.stats e.name (h.link e.name) in
    elim err [
      | none ↦ record {
        interfaces = g.interfaces ++ (record { net = e; tunnel = t } ∷ []);
        stats = stats;
      }
      | some why ↦ record g { stats = stats }
    ]

module _ (s : TunnelStore) where
  open s use {Db}

  -- The body of the loop; none stands for a panic.
  abbrev attach_looked : Host → Growth → NetInterface → Lookup → Option Growth
  attach_looked h g e panics = none
  attach_looked h g e nothing = some g
  attach_looked h g e (tunnel_is t) = some (attach_found h g e t)

  pub attach_one : Db → Host → Growth → NetInterface → Option Growth
  unfolding attach_found is_new
  attach_one d h g e =
      if is_new h g.interfaces e then attach_looked h g e (find_tunnel s d h e.name) else some g

  pub attach : Db → Host → Growth → List NetInterface → Option Growth
  unfolding attach_one
  attach d h g [] = some g
  attach d h g (e ∷ es) = elim (attach_one d h g e) [ none ↦ none | some g' ↦ attach d h g' es ]
