-- ===== src/Babel/Metrics/Least.antt =====
-- internal/services/babel/socket.go: the metric of a prefix is the least of those that are listed.
use mesh_manager.Common.{
  ℕ, ◌≡◌, refl, true, false, List, [], ◌∷◌, Option, none, some, ltb, if◌then◌else◌, Bytes, codes,
  equal, equal_iff, load, load-store, arith, ap, ◌∙◌, equal_self, ◌==◌, parse_digits, match_at, ok,
  Bool-cases, inl, inr,
}
use mesh_manager.Net.{parse_ip}
use mesh_manager.Babel.Metrics.{
  Metrics, route_regex, network_of, mask_or_32, atoi_within, keyed, with_metric, entry_of,
  parse_entry, keep_against, keep, read_routes, after_banner, Socket, fetch_installed_route_metrics,
}

-- The lines up to the first "ok".
abbrev pub reply : List Bytes → List Bytes
reply [] = []
reply (line ∷ more) = let rest = reply more in if equal line (codes "ok") then [] else line ∷ rest

abbrev pub smaller : ℕ → Option ℕ → Option ℕ
smaller n none = some n
smaller n (some o) = some (if ltb n o then n else o)

-- What a line of the form of a route says: the prefix under its mask, and the metric, any number
-- that fits in 63 bits.
abbrev with_any : Option Bytes → Option ℕ → Option (Bytes × ℕ)
with_any network none = none
with_any network (some n) = keyed network n

abbrev pub listed : (Bytes → Option Bytes) → Option (List Bytes) → Option (Bytes × ℕ)
listed parse_v6 (some (prefix ∷ mask ∷ metric ∷ [])) =
    with_any (network_of prefix (parse_ip parse_v6 prefix) (mask_or_32 mask))
      (atoi_within (parse_digits metric))
listed parse_v6 _ = none

-- A route with the metric 65535 cannot be reached, and does not count.
abbrev pub for_key : Bytes → Option (Bytes × ℕ) → Option ℕ → Option ℕ
for_key key none best = best
for_key key (some (k, n)) best =
    if n == 65535 then best else if equal k key then smaller n best else best

-- The least metric that some lines give for a key.
abbrev pub least : (Bytes → Option Bytes) → Bytes → List Bytes → Option ℕ → Option ℕ
least parse_v6 key [] best = best
least parse_v6 key (line ∷ more) best =
    least parse_v6 key more (for_key key (listed parse_v6 (match_at route_regex line)) best)

abbrev one_for : Bytes → Option (Bytes × ℕ) → Option ℕ → Option ℕ
one_for key none best = best
one_for key (some (k, n)) best = if equal k key then smaller n best else best

for_key-keyed :
    (key : Bytes) (network : Option Bytes) (n : ℕ) (best : Option ℕ)
    → one_for key (if n == 65535 then none else keyed network n) best
      ≡ for_key key (keyed network n) best
for_key-keyed key none n best = ground arith
for_key-keyed key (some k) n best = ground arith

for_key-with_metric :
    (parse_v6 : Bytes → Option Bytes) (key prefix mask : Bytes) (o best : Option ℕ)
    → one_for key (with_metric parse_v6 prefix mask o) best
      ≡ for_key key
          (with_any (network_of prefix (parse_ip parse_v6 prefix) (mask_or_32 mask)) o)
          best
for_key-with_metric parse_v6 key prefix mask none best = refl
for_key-with_metric parse_v6 key prefix mask (some n) best =
    for_key-keyed key (network_of prefix (parse_ip parse_v6 prefix) (mask_or_32 mask)) n best

for_key-entry_of :
    (parse_v6 : Bytes → Option Bytes) (key : Bytes) (groups : Option (List Bytes)) (best : Option ℕ)
    → one_for key (entry_of parse_v6 groups) best ≡ for_key key (listed parse_v6 groups) best
for_key-entry_of parse_v6 key none best = refl
for_key-entry_of parse_v6 key (some []) best = refl
for_key-entry_of parse_v6 key (some (a ∷ [])) best = refl
for_key-entry_of parse_v6 key (some (a ∷ b ∷ [])) best = refl
for_key-entry_of parse_v6 key (some (prefix ∷ mask ∷ metric ∷ [])) best =
    for_key-with_metric parse_v6 key prefix mask (atoi_within (parse_digits metric)) best
for_key-entry_of parse_v6 key (some (a ∷ b ∷ c ∷ d ∷ more)) best = refl

for_key-parse_entry :
    (parse_v6 : Bytes → Option Bytes) (key line : Bytes) (best : Option ℕ)
    → one_for key (parse_entry parse_v6 line) best
      ≡ for_key key (listed parse_v6 (match_at route_regex line)) best
unfolding parse_entry
for_key-parse_entry parse_v6 key line best =
    for_key-entry_of parse_v6 key (match_at route_regex line) best

load-keep :
    (key : Bytes) (e : Option (Bytes × ℕ)) (m : Metrics)
    → load key (keep e m) ≡ one_for key e (load key m)
load-keep key none m = refl
load-keep key (some (k, n)) m = elim (Bool-cases (equal k key)) [
  | inl e ↦ let same : k ≡ key = (equal_iff k key).0 e in rw (e, same) (kept n (load key m) refl)
  | inr e ↦ ground (arith, load-store k key n m)
]
  where
    kept : (n : ℕ) (o : Option ℕ) → load key m ≡ o → load key (keep_against key n o m) ≡ smaller n o
    kept n none found = load-store key key n m ∙ rw equal_self refl
    kept n (some old) found = ground (arith, load-store key key n m, equal_self key)

load-read_routes :
    (parse_v6 : Bytes → Option Bytes) (key : Bytes) (ls : List Bytes) (m : Metrics)
    → load key (read_routes parse_v6 ls m) ≡ least parse_v6 key (reply ls) (load key m)
unfolding read_routes
load-read_routes parse_v6 key [] m = refl
load-read_routes parse_v6 key (line ∷ more) m = elim (Bool-cases (equal line (codes "ok"))) [
  | inl e ↦ rw e refl
  | inr e ↦ rw e (
      load-read_routes parse_v6 key more (keep (parse_entry parse_v6 line) m)
      ∙ ap (least parse_v6 key (reply more)) (
          load-keep key (parse_entry parse_v6 line) m
          ∙ for_key-parse_entry parse_v6 key line (load key m)))
]

-- `FetchInstalledRouteMetrics` gives a map, if the socket serves it, in which a prefix has the
-- least of the metrics that the lines between the first "ok" and the second list for it, except
-- that a line with the metric 65535 counts for nothing; and no metric if no line counts for it.
pub load-fetch_installed_route_metrics :
    (parse_v6 : Bytes → Option Bytes) (s : Socket) (key : Bytes)
    → s.connects ≡ true
    → s.takes_deadline ≡ true
    → s.takes_command ≡ true
    → s.scanner_breaks ≡ false
    → (m : Metrics) × (fetch_installed_route_metrics parse_v6 s ≡ ok m)
      × (load key m ≡ least parse_v6 key (reply (after_banner s.replies)) none)
unfolding fetch_installed_route_metrics load
load-fetch_installed_route_metrics parse_v6 s key a b c d = (
  read_routes parse_v6 (after_banner s.replies) [],
  rw (a, b, c, d) refl,
  load-read_routes parse_v6 key (after_banner s.replies) [],
)
