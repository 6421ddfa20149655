-- ===== src/Olsr/Pages.antt =====
-- internal/services/olsr/hosts_parser.go: `HostsParser`, and `GetHostsPaginated` on 64-bit
-- integers. An `int` is its 64 bits, read as a natural number; it is negative from 2^63 on.
use mesh_manager.Common.{
  ℕ, zero, suc, ◌+◌, ◌-◌, ◌*◌, ◌%◌, ◌≤◌, ◌<◌, ◌≡◌, refl, ap, sym, ◌∙◌, ltb→lt, ltb-false, inl, inr,
  Bool, true, false, not, ◌&&◌, ◌||◌, List, [], ◌∷◌, Option, none, some, Bytes, length, take, drop,
  select, ltb, leb, if◌then◌else◌, contains, to_lower, arith, Bool-cases,
}
use mesh_manager.Olsr.{Host}

abbrev pub word : ℕ
word = 18446744073709551616

abbrev pub is_negative : ℕ → Bool
is_negative n = leb 9223372036854775808 n

-- `n > length xs` for an `int` n.
abbrev pub beyond : {A : Type 0} → ℕ → List A → Bool
beyond n xs = not (is_negative n) && ltb (length xs) n

-- `xs[from:to]` for a `to` that is not beyond the end; none is a panic.
abbrev pub slice : {A : Type 0} → ℕ → ℕ → List A → Option (List A)
slice from to xs =
    if is_negative from || (is_negative to || ltb to from)
    then none
    else some (take (to - from) (drop from xs))

abbrev pub page_start : ℕ → ℕ → ℕ
page_start page limit = ((page + (word - 1)) % word * limit) % word

abbrev pub page_end : ℕ → ℕ → ℕ
page_end page limit = (page_start page limit + limit) % word

abbrev pub filtered : Bytes → List Host → List Host
filtered filter hosts = select (λ h. contains (to_lower h.self.hostname) (to_lower filter)) hosts

-- The slice of the hosts that pass the filter.
unfoldable pub page_of : {A : Type 0} → ℕ → ℕ → List A → Option (List A)
page_of from to hosts =
    if beyond from hosts
    then some []
    else slice from (if beyond to hosts then length hosts else to) hosts

pub get_hosts_paginated : ℕ → ℕ → Bytes → List Host → Option (List Host)
unfolding page_of
get_hosts_paginated page limit filter hosts =
    page_of (page_start page limit) (page_end page limit) (filtered filter hosts)

-- The parser: its hosts, the two counts, and whether a file is being read.
pub record HostsParser : Type 0 where
  pub current_hosts : List Host
  pub nodes_count : ℕ
  pub total_count : ℕ
  pub is_parsing : Bool

pub get_total_hosts_count : HostsParser → ℕ
get_total_hosts_count p = p.total_count + p.nodes_count

-- `Parse` on what `parseHosts` gives: hosts and counts, or an error, which leaves the last hosts.
pub parse : Option (List Host × ℕ × ℕ) → HostsParser → HostsParser
parse none p = p
parse (some (hosts, nodes, total)) p =
    if p.is_parsing
    then p
    else record p { current_hosts = hosts; nodes_count = nodes; total_count = total }

take_all : {A : Type 0} (n : ℕ) (xs : List A) → length xs ≤ n → take n xs ≡ xs
take_all zero [] h = refl
take_all zero (x ∷ xs) h = ground arith
take_all (suc n) [] h = refl
take_all (suc n) (x ∷ xs) h = ap (◌∷◌ x) (take_all n xs (omega arith))

drop_all : {A : Type 0} (n : ℕ) (xs : List A) → length xs ≤ n → drop n xs ≡ []
drop_all zero [] h = refl
drop_all zero (x ∷ xs) h = ground arith
drop_all (suc n) [] h = refl
drop_all (suc n) (x ∷ xs) h = drop_all n xs (omega arith)

length-drop : {A : Type 0} (n : ℕ) (xs : List A) → length (drop n xs) ≡ length xs - n
length-drop zero xs = omega arith
length-drop (suc n) [] = omega arith
length-drop (suc n) (x ∷ xs) = omega (arith, length-drop n xs)

cut : (A : Type 0) (n : ℕ) → take {A = A} n [] ≡ []
cut A zero = refl
cut A (suc n) = refl

is_positive : (n : ℕ) → n < 9223372036854775808 → is_negative n ≡ false
is_positive n h = ground arith

not_less : (m n : ℕ) → n ≤ m → ltb m n ≡ false
not_less m n h = ground arith

less : (m n : ℕ) → m < n → ltb m n ≡ true
less m n h = ground arith

-- A slice within 63 bits is the hosts from its start on, as many as fit.
page_of-slice :
    {A : Type 0} (from limit : ℕ) (hosts : List A)
    → from + limit < 9223372036854775808
    → length hosts < 9223372036854775808
    → page_of from (from + limit) hosts ≡ some (take limit (drop from hosts))
unfolding page_of
page_of-slice from limit hosts small few = elim (Bool-cases (ltb (length hosts) from)) [
  | inl past ↦
      rw
        (
          is_positive from (omega arith),
          past,
          drop_all from hosts (omega (arith, ltb→lt (length hosts) from past)),
          cut _ limit,
        )
        refl
  | inr within ↦
      let start_in = ltb-false (length hosts) from within in
      elim (Bool-cases (ltb (length hosts) (from + limit))) [
        | inl over ↦
            let end_over = ltb→lt (length hosts) (from + limit) over in
            rw
              (
                is_positive from (omega arith),
                within,
                is_positive (from + limit) small,
                over,
                is_positive (length hosts) few,
                not_less (length hosts) from start_in,
              )
              (ap some (
                take_all (length hosts - from) (drop from hosts)
                  (omega (arith, length-drop from hosts))
                ∙ sym (take_all limit (drop from hosts) (omega (arith, length-drop from hosts)))))
        | inr fits ↦
            let same : from + limit - from ≡ limit = omega arith in
            rw
              (
                is_positive from (omega arith),
                within,
                is_positive (from + limit) small,
                fits,
                is_positive (from + limit) small,
                not_less (from + limit) from (omega arith),
                same,
              )
              refl
      ]
]

start_of :
    (p limit m : ℕ)
    → p < 9223372036854775808
    → p * limit ≡ m
    → m < 9223372036854775808
    → page_start (p + 1) limit ≡ m
start_of p limit m small e h =
    let there : (p + 1 + 18446744073709551615) % 18446744073709551616 ≡ p = omega arith in
    rw (there, e) (omega arith)

-- Page `p + 1` of a list, as long as it ends within 63 bits.
pub page_of-page :
    {A : Type 0} (p limit : ℕ) (hosts : List A)
    → p < 9223372036854775808
    → p * limit + limit < 9223372036854775808
    → length hosts < 9223372036854775808
    → page_of (page_start (p + 1) limit) (page_end (p + 1) limit) hosts
      ≡ some (take limit (drop (p * limit) hosts))
page_of-page p limit hosts small fits few =
    let start = start_of p limit (p * limit) small refl (omega arith) in
    let last : page_end (p + 1) limit ≡ p * limit + limit = rw start (omega arith) in
    ap (λ from. page_of from (page_end (p + 1) limit) hosts) start
    ∙ ap (λ to. page_of (p * limit) to hosts) last
    ∙ page_of-slice (p * limit) limit hosts fits few

-- Page `p + 1` of the hosts that pass the filter, `limit` on each, as long as the page ends within
-- 63 bits: the hosts from position `p * limit` on, `limit` of them or as many as there are.
pub get_hosts_paginated-page :
    (p limit : ℕ) (filter : Bytes) (hosts : List Host)
    → p < 9223372036854775808
    → p * limit + limit < 9223372036854775808
    → length (filtered filter hosts) < 9223372036854775808
    → get_hosts_paginated (p + 1) limit filter hosts
      ≡ some (take limit (drop (p * limit) (filtered filter hosts)))
unfolding get_hosts_paginated
get_hosts_paginated-page p limit filter hosts small fits few =
    page_of-page p limit (filtered filter hosts) small fits few

negative_start :
    (limit : ℕ) → limit < 9223372036854775808 → is_negative (18446744073709551616 - limit) ≡ true
negative_start limit h = ground arith

-- For page 0 the start of the slice is negative, and the call panics, whatever hosts there are.
pub get_hosts_paginated-zero :
    (limit : ℕ) (filter : Bytes) (hosts : List Host)
    → 0 < limit
    → limit < 9223372036854775808
    → get_hosts_paginated 0 limit filter hosts ≡ none
unfolding get_hosts_paginated page_of
get_hosts_paginated-zero limit filter hosts some_limit small =
    let start : page_start 0 limit ≡ 18446744073709551616 - limit = omega arith in
    let below : is_negative (page_start 0 limit) ≡ true = rw start (negative_start limit small) in
    rw below refl
