-- ===== src/Lqm/Names/Peers.antt =====
-- internal/services/lqm/lqm.go, `deriveWireguardPeerIP`, against the addresses that
-- internal/wireguard/wireguard.go gives to the two ends of a tunnel.
use mesh_manager.Common.{
  ◌≡◌, refl, List, [], ◌∷◌, ◌++◌, some, Bytes, codes, equal, itoa, has_prefix, find_first,
  if◌then◌else◌, arith, Bool-cases, inl, inr, ap, ◌∙◌,
}
use mesh_manager.Net.{Ip4, Ip, v4, ip4_string}
use mesh_manager.Models.{Tunnel, is_server, interface_name}
use mesh_manager.Models.NextIp.{IsSlot}
use mesh_manager.Wireguard.{client_ip}
use mesh_manager.Lqm.Names.{
  NetLink, peer_of, peer_of_addrs, peer_of_links, derive_wireguard_peer_ip,
}

-- The address of this node's end of a tunnel and that of the other end: the server has the
-- tunnel's address.
abbrev pub own_end : Tunnel → Ip4 → Ip4
own_end t q = if is_server t then q else client_ip q

abbrev pub other_end : Tunnel → Ip4 → Ip4
other_end t q = if is_server t then client_ip q else q

peer_of-server :
    (n : Bytes) (q : Ip4)
    → IsSlot q
    → peer_of (codes "wgs" ++ n) (some q) ≡ ip4_string (client_ip q)
unfolding has_prefix client_ip
peer_of-server n q v = ap ip4_string (ground arith)

peer_of-client :
    (n : Bytes) (q : Ip4)
    → IsSlot q
    → peer_of (codes "wgc" ++ n) (some (client_ip q)) ≡ ip4_string q
unfolding has_prefix client_ip
peer_of-client n q v = ap ip4_string (ground arith)

peer_of-interface :
    (t : Tunnel) (q : Ip4)
    → IsSlot q
    → peer_of (interface_name t) (some (own_end t q)) ≡ ip4_string (other_end t q)
unfolding interface_name
peer_of-interface t q v = elim (Bool-cases (is_server t)) [
  | inl e ↦ rw e (peer_of-server (itoa t.id) q v)
  | inr e ↦ rw e (peer_of-client (itoa t.id) q v)
]

not_empty :
    (t : Tunnel) (ls : List NetLink)
    → derive_wireguard_peer_ip (some ls) (interface_name t) ≡ peer_of_links (interface_name t) ls
unfolding derive_wireguard_peer_ip interface_name
not_empty t ls = elim (Bool-cases (is_server t)) [ inl e ↦ rw e refl | inr e ↦ rw e refl ]

same_link : (k l : NetLink) → some k ≡ some l → k ≡ l
same_link k l h = cc

peer_of_links-found :
    (device : Bytes) (ls : List NetLink) (l : NetLink)
    → find_first (λ k. equal k.name device) ls ≡ some l
    → peer_of_links device ls ≡ peer_of_addrs device l.addrs
unfolding peer_of_links
peer_of_links-found device [] l h = cc
peer_of_links-found device (k ∷ ls) l h = elim (Bool-cases (equal k.name device)) [
  | inl same ↦
      rw same (ap (λ (o : NetLink). peer_of_addrs device o.addrs) (same_link k l (rw same at h)))
  | inr differs ↦ rw differs (peer_of_links-found device ls l (rw differs at h))
]

-- On a tunnel's interface, `deriveWireguardPeerIP` gives the address that `addPeer` gives the other
-- end: one above the server's on the server, and the server's on the client. The tunnel's address
-- is one that the allocator hands out, and the interface is listed with its own end's address
-- first.
pub derive_wireguard_peer_ip-other_end :
    (t : Tunnel) (q : Ip4) (ls : List NetLink) (l : NetLink) (ips : List Ip)
    → IsSlot q
    → find_first (λ k. equal k.name (interface_name t)) ls ≡ some l
    → l.addrs ≡ some (v4 (own_end t q) ∷ ips)
    → derive_wireguard_peer_ip (some ls) (interface_name t) ≡ ip4_string (other_end t q)
derive_wireguard_peer_ip-other_end t q ls l ips v found listed =
    not_empty t ls
    ∙ peer_of_links-found (interface_name t) ls l found
    ∙ ap (peer_of_addrs (interface_name t)) listed
    ∙ peer_of-interface t q v
