-- ===== src/Lqm/Names/Keys.antt =====
-- internal/services/lqm/lqm.go, `ipv6llToMac`: the keys of trackers.
use mesh_manager.Common.{
  ℕ, ◌/◌, ◌%◌, ◌<◌, ◌≡◌, refl, ◌↔◌, [], ◌∷◌, Option, some, Bytes, arith, ap, sym, ◌∙◌,
}
use mesh_manager.Net.{Ip4, IsIp4, v6, parse_ip}
use mesh_manager.Wireguard.{link_local}
use mesh_manager.Lqm.Names.{hex_digit, mac_string, ipv6ll_to_mac}

-- A hardware address 00:00 with the octets of an IPv4 address.
abbrev pub mac_of_ip4 : Ip4 → Bytes
mac_of_ip4 q = mac_string (0 ∷ 0 ∷ q.o0 ∷ q.o1 ∷ q.o2 ∷ q.o3 ∷ [])

hex_digit-injective : (a b : ℕ) → a < 16 → b < 16 → hex_digit a ≡ hex_digit b → a ≡ b
unfolding hex_digit
hex_digit-injective a b h k e = ground arith

byte_halves : (a b : ℕ) → a / 16 ≡ b / 16 → a % 16 ≡ b % 16 → a ≡ b
byte_halves a b h k = omega arith

hex_byte-injective :
    (a b : ℕ)
    → a < 256
    → b < 256
    → hex_digit (a / 16) ≡ hex_digit (b / 16)
    → hex_digit (a % 16) ≡ hex_digit (b % 16)
    → a ≡ b
hex_byte-injective a b h k e f =
    byte_halves a b (hex_digit-injective (a / 16) (b / 16) (omega arith) (omega arith) e)
      (hex_digit-injective (a % 16) (b % 16) (omega arith) (omega arith) f)

mac_of_ip4-injective : (p q : Ip4) → IsIp4 p → IsIp4 q → mac_of_ip4 p ≡ mac_of_ip4 q → p ≡ q
unfolding mac_string
mac_of_ip4-injective p q u v e =
    let o0 = hex_byte-injective p.o0 q.o0 u.lt0 v.lt0 (cc) (cc) in
    let o1 = hex_byte-injective p.o1 q.o1 u.lt1 v.lt1 (cc) (cc) in
    let o2 = hex_byte-injective p.o2 q.o2 u.lt2 v.lt2 (cc) (cc) in
    let o3 = hex_byte-injective p.o3 q.o3 u.lt3 v.lt3 (cc) (cc) in cc (o0, o1, o2, o3)

-- The manager derives the hardware address that the link-local address of a tunnel is made from.
ipv6ll_to_mac-link_local :
    (parse_v6 : Bytes → Option Bytes) (text : Bytes) (q : Ip4)
    → parse_ip parse_v6 text ≡ some (v6 (link_local q))
    → ipv6ll_to_mac parse_v6 text ≡ mac_of_ip4 q
unfolding ipv6ll_to_mac link_local
ipv6ll_to_mac-link_local parse_v6 text q e = rw e refl

-- The key of the tracker at the other end of a tunnel is the hardware address 00:00 with the four
-- octets of the tunnel's IPv4 address, from which `GenerateIPv6LinkLocalAddress` has made its
-- link-local address; and the keys of two tunnels are equal exactly when their addresses are. The
-- texts of both link-local addresses can be parsed.
pub ipv6ll_to_mac-tunnel :
    (parse_v6 : Bytes → Option Bytes) (s t : Bytes) (p q : Ip4)
    → IsIp4 p
    → IsIp4 q
    → parse_ip parse_v6 s ≡ some (v6 (link_local p))
    → parse_ip parse_v6 t ≡ some (v6 (link_local q))
    → (ipv6ll_to_mac parse_v6 s ≡ mac_string (0 ∷ 0 ∷ p.o0 ∷ p.o1 ∷ p.o2 ∷ p.o3 ∷ []))
      × (ipv6ll_to_mac parse_v6 s ≡ ipv6ll_to_mac parse_v6 t ↔ p ≡ q)
ipv6ll_to_mac-tunnel parse_v6 s t p q u v e f =
    let first = ipv6ll_to_mac-link_local parse_v6 s p e in
    let second = ipv6ll_to_mac-link_local parse_v6 t q f in
    (
      first,
      (
        λ same. mac_of_ip4-injective p q u v (sym first ∙ same ∙ second),
        λ same. first ∙ ap mac_of_ip4 same ∙ sym second,
      ),
    )
