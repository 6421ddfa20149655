-- ===== src/Watcher.antt =====
-- internal/ifacewatcher/watcher.go: one pass of `watch`, in three parts: Watcher.Drop takes away
-- the interfaces that are gone, Watcher.Attach adds those that are new, Watcher.Reconcile writes
-- the table. An interface's `AssociatedTunnel` is never nil, since the one place that appends to
-- the watched interfaces has tested it, and no two interfaces share one, so it is held as a value.
pub mod Drop
pub mod Attach
pub mod Reconcile
pub mod Pass
mod Tests
use mesh_manager.Common.{
  ℕ, ◌<◌, Bool, true, false, not, ◌&&◌, ◌||◌, List, [], ◌∷◌, ◌++◌, Option, none, some, ltb, ◌==◌,
  if◌then◌else◌, Bytes, codes, equal, has_prefix, any,
}
use mesh_manager.Models.{Tunnel}
use mesh_manager.Bandwidth.Manager.{Manager}
use mesh_manager.Bandwidth.{Link}
use mesh_manager.Net.{Ip}

-- `net.Interface`; the hardware address is its text.
pub record NetInterface : Type 0 where
  pub name : Bytes
  pub index : ℕ
  pub hardware_addr : Bytes

-- `_iface`: an interface that is watched.
pub record Iface : Type 0 where
  pub net : NetInterface
  pub tunnel : Tunnel

pub data Event : Type 0 where
  tunnel_connection : ℕ → Bool → ℕ → Event
  tunnel_disconnection : ℕ → Bool → Event
  tunnel_stats : Tunnel → Event

-- A Wireguard peer: the seconds since its last handshake, or none if there was no handshake.
pub record Peer : Type 0 where
  pub since_handshake : Option ℕ

-- What the host says during one pass: its interfaces, the Wireguard devices, the addresses of an
-- interface (none for one that `ParseCIDR` refuses), the byte counters of a link, and the time.
pub record Host : Type 0 where
  pub interfaces : Option (List NetInterface)
  pub device : Bytes → Option (List Peer)
  pub addrs : Bytes → Option (List (Option Ip))
  pub link : Bytes → Option Link
  pub now : ℕ

-- Name, index and hardware address agree.
unfoldable pub same_interface : NetInterface → NetInterface → Bool
same_interface a e =
    equal a.name e.name && (a.index == e.index && equal a.hardware_addr e.hardware_addr)

-- `netInterfaceContainsIface` and `ifaceContainsNetInterface`.
unfoldable pub net_contains : List NetInterface → NetInterface → Bool
unfolding same_interface
net_contains s e = any (λ a. same_interface a e) s

pub watched_contains : List Iface → NetInterface → Bool
unfolding same_interface
watched_contains s e = any (λ a. same_interface a.net e) s

-- `strings.HasPrefix(name, "wg") && name != WG0`.
unfoldable pub is_wg : Bytes → Bool
is_wg name = has_prefix name (codes "wg") && not (equal name (codes "wg0"))

unfoldable pub is_tun : Bytes → Bool
is_tun name = has_prefix name (codes "tun")

abbrev pub fresh_handshake : Peer → Bool
fresh_handshake p = elim p.since_handshake [ none ↦ false | some age ↦ ltb age 180 ]

-- `wgInterfaceActive`.
unfoldable pub wg_interface_active : Host → Bytes → Bool
wg_interface_active h name =
    if equal name (codes "wg0")
    then false
    else if not (has_prefix name (codes "wg"))
    then false
    else elim (h.device name) [ none ↦ false | some peers ↦ any fresh_handshake peers ]
