-- ===== src/Wireguard/Address.antt =====
-- internal/wireguard/wireguard.go: the addresses of a client's end.
use mesh_manager.Common.{◌+◌, ◌<◌, ◌≡◌, ◌≢◌, ◌↔◌, arith}
use mesh_manager.Net.{Ip4, IsIp4}
use mesh_manager.Models.NextIp.{IsSlot}
use mesh_manager.Wireguard.{client_ip, link_local}

-- The client's end of a tunnel has an IPv4 address that does not end in 0.
pub client_ip-IsIp4 : (q : Ip4) → IsIp4 q → IsIp4 (client_ip q) × (0 < (client_ip q).o3)
unfolding client_ip
client_ip-IsIp4 q v = ground arith

-- Over slots, which are what the allocator hands out, the client's address is the server's plus
-- one. It is no slot, so it is no server's address, and two tunnels share it only if they are given
-- the same address.
pub client_ip_slots :
    (p q : Ip4)
    → IsSlot p
    → IsSlot q
    → (client_ip p ≡ record p { o3 = p.o3 + 1 })
      × (client_ip p ≢ q)
      × (client_ip p ≡ client_ip q ↔ p ≡ q)
unfolding client_ip
client_ip_slots p q u v = ground arith

-- The link-local address tells the IPv4 addresses apart from which it is made.
pub link_local-injective : (p q : Ip4) → link_local p ≡ link_local q → p ≡ q
unfolding link_local
link_local-injective p q h = ground arith
