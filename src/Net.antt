-- ===== src/Net.antt =====
-- Go's `net.IP` as the program uses it: IPv4 addresses, their text form and its parser.
pub mod RoundTrip
mod Tests
use mesh_manager.Common.{
  ℕ, zero, suc, ◌+◌, ◌-◌, ◌*◌, ◌≤◌, ◌<◌, ◌≡◌, Bool, true, false, ◌&&◌, ◌||◌, List, [], ◌∷◌, ◌++◌,
  Option, none, some, ltb, leb, ◌==◌, if◌then◌else◌, Bytes, codes, itoa, equal, take, drop,
}

-- The four octets of an IPv4 address.
pub record Ip4 : Type 0 where
  pub o0 : ℕ
  pub o1 : ℕ
  pub o2 : ℕ
  pub o3 : ℕ

-- Every octet is a byte.
pub record IsIp4 (q : Ip4) : Type 0 where
  pub lt0 : q.o0 < 256
  pub lt1 : q.o1 < 256
  pub lt2 : q.o2 < 256
  pub lt3 : q.o3 < 256

-- A `net.IP`; a 16-byte slice that holds an IPv4 address counts as `v4`.
pub data Ip : Type 0 where
  v4 : Ip4 → Ip
  v6 : Bytes → Ip

-- `ip.To4()`.
abbrev pub to4 : Ip → Option Ip4
to4 (v4 q) = some q
to4 (v6 bs) = none

-- `ip.String()` on an IPv4 address.
unfoldable pub ip4_string : Ip4 → Bytes
ip4_string q = itoa q.o0 ++ (b'.' ∷ (itoa q.o1 ++ (b'.' ∷ (itoa q.o2 ++ (b'.' ∷ itoa q.o3)))))

-- The fields read when the text ends: three before the last one.
abbrev finish : List ℕ → ℕ → Option Ip4
finish (c ∷ b ∷ a ∷ []) val = some (record { o0 = a; o1 = b; o2 = c; o3 = val })
finish _ val = none

abbrev is_digit : ℕ → Bool
is_digit c = leb b'0' c && leb c b'9'

abbrev is_nil : Bytes → Bool
is_nil [] = true
is_nil (c ∷ cs) = false

abbrev three : List ℕ → Bool
three (c ∷ b ∷ a ∷ _) = true
three _ = false

-- `parseIPv4Fields`: the value of the open field, its number of digits, the fields before it.
unfoldable pub scan_ip4 : ℕ → ℕ → List ℕ → Bytes → Option Ip4
scan_ip4 val dig done [] = finish done val
scan_ip4 val dig done (c ∷ cs) =
    let more = scan_ip4 (val * 10 + (c - 48)) (dig + 1) done cs in
    let next = scan_ip4 0 0 (val ∷ done) cs in
    if is_digit c
    then if dig == 1 && val == 0 then none else if ltb 255 (val * 10 + (c - 48)) then none else more
    else if c == b'.'
    then if dig == 0 || is_nil cs || three done then none else next
    else none

-- The first of `.` and `:` in a text decides how `net.ParseIP` reads it.
unfoldable pub is_dotted : Bytes → Bool
is_dotted [] = false
is_dotted (c ∷ cs) = if c == b'.' then true else if c == b':' then false else is_dotted cs

-- The IPv4 address that 16 bytes hold, as those of `::ffff:10.0.0.1` do.
abbrev four_octets : Bytes → Option Ip4
four_octets (a ∷ b ∷ c ∷ d ∷ []) = some (record { o0 = a; o1 = b; o2 = c; o3 = d })
four_octets _ = none

abbrev v4_prefix : Bytes
v4_prefix = 0 ∷ 0 ∷ 0 ∷ 0 ∷ 0 ∷ 0 ∷ 0 ∷ 0 ∷ 0 ∷ 0 ∷ 255 ∷ 255 ∷ []

abbrev ip_holding : Bytes → Option Ip4 → Ip
ip_holding bs none = v6 bs
ip_holding bs (some q) = v4 q

abbrev pub ip_of_bytes : Bytes → Ip
ip_of_bytes bs =
    if equal (take 12 bs) v4_prefix then ip_holding bs (four_octets (drop 12 bs)) else v6 bs

-- `net.ParseIP`; the reader of IPv6 texts is a parameter, which gives the 16 bytes.
unfoldable pub parse_ip : (Bytes → Option Bytes) → Bytes → Option Ip
unfolding scan_ip4 is_dotted
parse_ip parse_v6 s =
    if is_dotted s
    then elim (scan_ip4 0 0 [] s) [ none ↦ none | some q ↦ some (v4 q) ]
    else elim (parse_v6 s) [ none ↦ none | some bs ↦ some (ip_of_bytes bs) ]

-- `net.ParseIP(s)` followed by `To4`: an error if either gives nil.
unfoldable pub ipv4_of : (Bytes → Option Bytes) → Bytes → Option Ip4
ipv4_of parse_v6 s = elim (parse_ip parse_v6 s) [ none ↦ none | some ip ↦ to4 ip ]
