-- ===== src/Watcher/Attach/Addresses.antt =====
-- internal/ifacewatcher/watcher.go against internal/wireguard/wireguard.go: `findTunnel` undoes the
-- choice of the interface's address in `addPeer`.
use mesh_manager.Common.{
  ◌≡◌, ◌≢◌, ◌↔◌, sym, ◌⊎◌, true, false, List, [], ◌∷◌, Option, some, if◌then◌else◌, codes, equal,
  equal_iff, has_prefix, arith,
}
use mesh_manager.Net.{Ip4, IsIp4, Ip, v4, ip4_string}
use mesh_manager.Models.{Tunnel, TunnelStore, interface_name, is_server, find_tunnel_by_ip}
use mesh_manager.Models.Counts.{select_head}
use mesh_manager.Wireguard.{client_ip}
use mesh_manager.Wireguard.Calls.{address_of}
use mesh_manager.Watcher.{Host, is_wg}
use mesh_manager.Watcher.Attach.{nothing, tunnel_is, lower_by, find_tunnel}

lower_by-client_ip : (q : Ip4) → IsIp4 q → (lower_by 1 (client_ip q) ≡ q) ↔ (q.o3 ≢ 255)
unfolding client_ip
lower_by-client_ip q v = ground arith

-- The name of a tunnel's interface says which end it is.
interface_name-has_prefix :
    (t : Tunnel)
    → (is_wg (interface_name t) ≡ true)
      × (has_prefix (interface_name t) (codes "wgs") ≡ is_server t)
      × (has_prefix (interface_name t) (codes "wgc") ≡ (if is_server t then false else true))
unfolding interface_name is_wg has_prefix equal
interface_name-has_prefix t = ground arith

module _ (s : TunnelStore) (d : s.Db) (h : Host) (t : Tunnel) (q : Ip4)
    (more : List (Option Ip)) where
  -- The look-up at the first address, when it is the one that `addPeer` has set.
  attempt-first :
      (u : Tunnel) (us : List Tunnel)
      → h.addrs (interface_name t) ≡ some (some (v4 (address_of (is_server t) q)) ∷ more)
      → (is_server t ≡ true) ⊎ (lower_by 1 (client_ip q) ≡ q)
      → s.query d (λ x. equal x.ip (ip4_string q)) ≡ some (u ∷ us)
      → find_tunnel s d h (interface_name t) ≡ tunnel_is u
  unfolding find_tunnel find_tunnel_by_ip
  attempt-first u us at_first undo found_ = ground (arith, interface_name-has_prefix t)

  -- An interface whose first address is the one that `addPeer` sets for a tunnel of address `q` is
  -- matched with a tunnel of that address: for a server always, for a client unless `q` ends in
  -- 255. The table has such a tunnel and the query for it succeeds.
  pub find_tunnel-address :
      (u : Tunnel) (us : List Tunnel)
      → IsIp4 q
      → (is_server t ≡ true) ⊎ (q.o3 ≢ 255)
      → h.addrs (interface_name t) ≡ some (some (v4 (address_of (is_server t) q)) ∷ more)
      → s.query d (λ x. equal x.ip (ip4_string q)) ≡ some (u ∷ us)
      → (find_tunnel s d h (interface_name t) ≡ tunnel_is u) × (u.ip ≡ ip4_string q)
  find_tunnel-address u us v low at_first found_ = (
    attempt-first u us at_first (ground (arith, lower_by-client_ip q v)) found_,
    (equal_iff u.ip (ip4_string q)).0 (
        select_head (λ x. equal x.ip (ip4_string q)) (s.rows d) u us
          (sym (s.query-rows d _ (u ∷ us) found_))),
  )

  -- For a client whose tunnel's address ends in 255 the watcher looks for another address than the
  -- tunnel's: when no tunnel has that one, the interface has no tunnel, and is never watched.
  pub find_tunnel_carry :
      IsIp4 q
      → is_server t ≡ false
      → q.o3 ≡ 255
      → h.addrs (interface_name t) ≡ some (some (v4 (client_ip q)) ∷ [])
      → s.query d (λ x. equal x.ip (ip4_string (lower_by 1 (client_ip q)))) ≡ some []
      → (find_tunnel s d h (interface_name t) ≡ nothing) × (lower_by 1 (client_ip q) ≢ q)
  unfolding find_tunnel find_tunnel_by_ip
  find_tunnel_carry v client last at_first none_ =
      (ground (arith, interface_name-has_prefix t), ground (arith, lower_by-client_ip q v))
