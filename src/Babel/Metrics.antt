-- ===== src/Babel/Metrics.antt =====
-- internal/services/babel/socket.go, `FetchInstalledRouteMetrics`: the metrics of the routes that
-- the daemon has installed, by their IPv4 prefixes.
pub mod Least
use mesh_manager.Common.{
  ℕ, ◌+◌, ◌-◌, ◌*◌, ◌/◌, ◌%◌, ◌^◌, Bool, true, false, not, ◌||◌, List, [], ◌∷◌, ◌++◌, Option, none,
  some, ltb, leb, contains, ◌==◌, if◌then◌else◌, Bytes, codes, equal, load, store, itoa,
  parse_digits, Result, ok, err, Piece, lit, any_star, group, slash_group, star_edge, word_end,
  in_number, match_at,
}
use mesh_manager.Net.{Ip4, Ip, v4, v6, parse_ip, ip4_string}

abbrev pub route_regex : List Piece
route_regex =
    lit (codes "add route ")
    ∷ any_star
    ∷ lit (codes " prefix ")
    ∷ group (λ c. not (c == b' ' || c == b'/'))
    ∷ slash_group in_number
    ∷ any_star
    ∷ lit (codes " installed yes ")
    ∷ star_edge false
    ∷ lit (codes "metric ")
    ∷ group in_number
    ∷ word_end
    ∷ []

-- An octet of which some leading bits are kept: `8 - n` are cleared, where `n` is at most 8.
abbrev kept_bits : ℕ → ℕ → ℕ
kept_bits n o = o - o % 2 ^ (8 - n)

-- A network address under a mask of 32 bits at most: `n - 8 * i` stops at 0.
abbrev pub masked : ℕ → Ip4 → Ip4
masked n q = record {
  o0 = kept_bits n q.o0;
  o1 = kept_bits (n - 8) q.o1;
  o2 = kept_bits (n - 16) q.o2;
  o3 = kept_bits (n - 24) q.o3;
}

abbrev pub network : Ip4 → Option ℕ → Option Bytes
network q none = none
network q (some n) = if ltb 32 n then none else some (ip4_string (masked n q) ++ (b'/' ∷ itoa n))

abbrev pub hex_char : ℕ → ℕ
hex_char d = if ltb d 10 then b'0' + d else 87 + d

abbrev pub hex_group : ℕ → Bytes
hex_group n =
    hex_char (n / 4096) ∷ hex_char (n / 256 % 16) ∷ hex_char (n / 16 % 16) ∷ hex_char (n % 16) ∷ []

-- The network of an IPv4 address that is written as an IPv6 one, "::ffff:10.1.2.3", whose mask has
-- 128 bits: that of IPv4 if the mask leaves the first 96 bits, and else the group ffff is cut.
abbrev pub mapped_network : Ip4 → Option ℕ → Option Bytes
mapped_network q none = none
mapped_network q (some n) =
    if ltb 128 n
    then none
    else if leb 96 n
    then network q (some (n - 96))
    else if leb n 80
    then some (codes "::/" ++ itoa n)
    else some (codes "::" ++ (hex_group (65536 - 2 ^ (96 - n)) ++ (codes ":0:0/" ++ itoa n)))

-- `net.ParseCIDR` and the name of its network, for an address that is IPv4 to `To4`; of another one
-- there is none.
abbrev pub network_of : Bytes → Option Ip → Bytes → Option Bytes
network_of prefix (some (v4 q)) mask =
    if contains prefix (codes ":")
    then mapped_network q (parse_digits mask)
    else network q (parse_digits mask)
network_of prefix _ mask = none

abbrev pub mask_or_32 : Bytes → Bytes
mask_or_32 [] = codes "32"
mask_or_32 (c ∷ cs) = c ∷ cs

-- `strconv.Atoi` of a row of digits.
abbrev pub atoi_within : Option ℕ → Option ℕ
atoi_within none = none
atoi_within (some n) = if ltb 9223372036854775807 n then none else some n

abbrev pub keyed : Option Bytes → ℕ → Option (Bytes × ℕ)
keyed none metric = none
keyed (some key) metric = some (key, metric)

abbrev pub with_metric : (Bytes → Option Bytes) → Bytes → Bytes → Option ℕ → Option (Bytes × ℕ)
with_metric parse_v6 prefix mask none = none
with_metric parse_v6 prefix mask (some metric) =
    if metric == 65535
    then none
    else keyed (network_of prefix (parse_ip parse_v6 prefix) (mask_or_32 mask)) metric

abbrev pub entry_of : (Bytes → Option Bytes) → Option (List Bytes) → Option (Bytes × ℕ)
entry_of parse_v6 (some (prefix ∷ mask ∷ metric ∷ [])) =
    with_metric parse_v6 prefix mask (atoi_within (parse_digits metric))
entry_of parse_v6 _ = none

unfoldable pub parse_entry : (Bytes → Option Bytes) → Bytes → Option (Bytes × ℕ)
unfolding match_at
parse_entry parse_v6 line = entry_of parse_v6 (match_at route_regex line)

abbrev pub Metrics : Type 0
Metrics = List (Bytes × ℕ)

-- The smaller metric of a prefix is kept.
abbrev pub keep_against : Bytes → ℕ → Option ℕ → Metrics → Metrics
keep_against key metric none m = store key metric m
keep_against key metric (some old) m = if ltb metric old then store key metric m else m

abbrev pub keep : Option (Bytes × ℕ) → Metrics → Metrics
keep none m = m
keep (some (key, metric)) m = keep_against key metric (load key m) m

-- The loop over the reply, which ends at "ok" or with the lines.
unfoldable pub read_routes : (Bytes → Option Bytes) → List Bytes → Metrics → Metrics
read_routes parse_v6 [] m = m
read_routes parse_v6 (line ∷ more) m =
    let rest = read_routes parse_v6 more (keep (parse_entry parse_v6 line) m) in
    if equal line (codes "ok") then m else rest

-- What is left behind the banner.
unfoldable pub after_banner : List Bytes → List Bytes
after_banner [] = []
after_banner (line ∷ more) =
    let rest = after_banner more in if equal line (codes "ok") then more else rest

pub data FetchError : Type 0 where
  no_connection no_deadline no_command scanner_failed : FetchError

-- The socket: whether it connects, takes a deadline and the command, the lines that it gives, and
-- whether the scanner ended with an error.
pub record Socket : Type 0 where
  pub connects : Bool
  pub takes_deadline : Bool
  pub takes_command : Bool
  pub replies : List Bytes
  pub scanner_breaks : Bool

unfoldable pub fetch_installed_route_metrics :
    (Bytes → Option Bytes) → Socket → Result FetchError Metrics
fetch_installed_route_metrics parse_v6 s =
    if not s.connects
    then err no_connection
    else if not s.takes_deadline
    then err no_deadline
    else if not s.takes_command
    then err no_command
    else if s.scanner_breaks
    then err scanner_failed
    else ok (read_routes parse_v6 (after_banner s.replies) [])
