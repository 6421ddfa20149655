-- ===== src/Lqm/Names.antt =====
-- internal/services/lqm/lqm.go: the functions on texts and addresses, `ipv6llToMac`, `reachToLQ`,
-- `canonicalHostname`, `meshIPForHostname` and `deriveWireguardPeerIP`.
pub mod Keys
pub mod Peers
pub mod Reach
use mesh_manager.Common.{
  ℕ, zero, suc, ◌+◌, ◌-◌, ◌*◌, ◌/◌, ◌%◌, Bool, true, false, ◌&&◌, List, [], ◌∷◌, ◌++◌, Option, none,
  some, Bytes, codes, equal, has_prefix, to_lower, trim_suffix, trim_prefix, leb, ltb, ◌==◌,
  if◌then◌else◌,
}
use mesh_manager.Net.{Ip4, Ip, v4, v6, to4, ip4_string, parse_ip}
use Prim.Native.Nat.{bit_xor}

-- The value of a digit in base 16.
unfoldable pub hex_value : ℕ → Option ℕ
hex_value c =
    if leb b'0' c && leb c b'9'
    then some (c - b'0')
    else if leb b'a' c && leb c b'f'
    then some (c - 87)
    else if leb b'A' c && leb c b'F'
    then some (c - 55)
    else none

-- `strconv.ParseUint(s, 16, 16)`: the value so far, none if it is malformed or out of range.
unfoldable pub parse_hex : ℕ → Bytes → Option ℕ
unfolding hex_value
parse_hex value [] = some value
parse_hex value (c ∷ cs) = elim (hex_value c) [
  | none ↦ none
  | some digit ↦ elim (ltb 65535 (value * 16 + digit)) [
    | true ↦ none
    | false ↦ parse_hex (value * 16 + digit) cs
  ]
]

unfoldable pub parse_reach : Bytes → Option ℕ
unfolding parse_hex
parse_reach [] = none
parse_reach (c ∷ cs) = parse_hex 0 (c ∷ cs)

-- The loop over the bits, lowest first.
unfoldable pub count_bits : ℕ → ℕ → ℕ → ℕ
count_bits zero count val = count
count_bits (suc rounds) count val =
    count_bits rounds (if val % 2 == 1 then count + 1 else count) (val / 2)

-- `math.Ceil(100 * float64(count) / 16)`, which is exact.
abbrev pub percent_of_16 : ℕ → ℕ
percent_of_16 count = (100 * count + 15) / 16

abbrev pub reach_quality : Option ℕ → ℕ
reach_quality none = 0
reach_quality (some val) = percent_of_16 (count_bits 16 0 val)

unfoldable pub reach_to_lq : Bytes → ℕ
unfolding parse_reach count_bits
reach_to_lq reach = reach_quality (parse_reach reach)

-- `net.HardwareAddr.String`.
unfoldable pub hex_digit : ℕ → ℕ
hex_digit n = if ltb n 10 then b'0' + n else 87 + n

abbrev pub hex_byte : ℕ → Bytes
hex_byte b = hex_digit (b / 16) ∷ hex_digit (b % 16) ∷ []

unfoldable pub mac_string : List ℕ → Bytes
mac_string [] = []
mac_string (b ∷ []) = hex_byte b
mac_string (b ∷ c ∷ bs) = hex_byte b ++ (b':' ∷ mac_string (c ∷ bs))

-- The 16 bytes of an address, also of an IPv4 address.
abbrev pub to_16 : Ip → Bytes
to_16 (v4 q) = 0 ∷ 0 ∷ 0 ∷ 0 ∷ 0 ∷ 0 ∷ 0 ∷ 0 ∷ 0 ∷ 0 ∷ 0xff ∷ 0xff ∷ q.o0 ∷ q.o1 ∷ q.o2 ∷ q.o3 ∷ []
to_16 (v6 bytes) = bytes

-- The octets of the hardware address in an EUI-64 one: bytes 8 to 15 without 11 and 12.
unfoldable pub eui64_mac : Bytes → Option (List ℕ)
eui64_mac (_ ∷ _ ∷ _ ∷ _ ∷ _ ∷ _ ∷ _ ∷ _ ∷ b8 ∷ b9 ∷ b10 ∷ b11 ∷ b12 ∷ b13 ∷ b14 ∷ b15 ∷ []) =
    if b11 == 0xff && b12 == 0xfe
    then some (bit_xor b8 2 ∷ b9 ∷ b10 ∷ b13 ∷ b14 ∷ b15 ∷ [])
    else none
eui64_mac _ = none

abbrev pub mac_or : Bytes → Option (List ℕ) → Bytes
mac_or text none = text
mac_or text (some octets) = mac_string octets

abbrev pub mac_of : Bytes → Option Ip → Bytes
mac_of text none = text
mac_of text (some ip) = mac_or text (eui64_mac (to_16 ip))

unfoldable pub ipv6ll_to_mac : (Bytes → Option Bytes) → Bytes → Bytes
unfolding eui64_mac mac_string
ipv6ll_to_mac parse_v6 text = mac_of text (parse_ip parse_v6 text)

unfoldable pub canonical_hostname : Bytes → Bytes
canonical_hostname hostname =
    trim_prefix (trim_suffix (to_lower hostname) (codes ".local.mesh")) (codes "dtdlink.")

abbrev pub first_v4 : List Ip → Bytes
first_v4 [] = []
first_v4 (v4 q ∷ ips) = ip4_string q
first_v4 (v6 bytes ∷ ips) = first_v4 ips

-- `meshIPForHostname`, of what the resolver answers.
abbrev pub mesh_ip : Option (List Ip) → Bytes
mesh_ip none = []
mesh_ip (some ips) = first_v4 ips

-- A link as netlink lists it: its name, and its IPv4 addresses if they can be listed.
pub record NetLink : Type 0 where
  pub name : Bytes
  pub addrs : Option (List Ip)

abbrev pub peer_of : Bytes → Option Ip4 → Bytes
peer_of device none = []
peer_of device (some q) =
    if has_prefix device (codes "wgs")
    then ip4_string (record q { o3 = (q.o3 + 1) % 256 })
    else if has_prefix device (codes "wgc")
    then ip4_string (record q { o3 = (q.o3 + 255) % 256 })
    else []

abbrev pub peer_of_addrs : Bytes → Option (List Ip) → Bytes
peer_of_addrs device none = []
peer_of_addrs device (some []) = []
peer_of_addrs device (some (ip ∷ ips)) = peer_of device (to4 ip)

-- The loop over the links; it ends at the first with the name.
unfoldable pub peer_of_links : Bytes → List NetLink → Bytes
peer_of_links device [] = []
peer_of_links device (l ∷ ls) =
    if equal l.name device then peer_of_addrs device l.addrs else peer_of_links device ls

unfoldable pub derive_wireguard_peer_ip : Option (List NetLink) → Bytes → Bytes
unfolding peer_of_links
derive_wireguard_peer_ip links [] = []
derive_wireguard_peer_ip none device = []
derive_wireguard_peer_ip (some links) device = peer_of_links device links
