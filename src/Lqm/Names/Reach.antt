-- ===== src/Lqm/Names/Reach.antt =====
-- internal/services/lqm/lqm.go, `reachToLQ`: the range of a link's quality.
use mesh_manager.Common.{
  ℕ, zero, suc, ◌+◌, ◌*◌, ◌/◌, ◌%◌, ◌≤◌, ◌<◌, ◌≡◌, ◌↔◌, ◌⊎◌, inl, inr, [], ◌∷◌, Option, none, some,
  Bytes, ◌==◌, arith, Bool-cases, Option-cases,
}
use mesh_manager.Lqm.Names.{
  hex_value, parse_hex, parse_reach, count_bits, reach_quality, reach_to_lq,
}

-- 2 ^ r.
abbrev top : ℕ → ℕ
top zero = 1
top (suc r) = 2 * top r

-- A count of the bits of a number below 2 ^ r, from `count` on.
abbrev Counted : ℕ → ℕ → ℕ → ℕ → Type 0
Counted r count val total =
    (count ≤ total)
    × (total ≤ count + r)
    × (total ≡ count ↔ val ≡ 0)
    × (total ≡ count + r ↔ val + 1 ≡ top r)

count_bits-Counted : (r count val : ℕ) → val < top r → Counted r count val (count_bits r count val)
unfolding count_bits
count_bits-Counted zero count val h = omega arith
count_bits-Counted (suc r) count val h = elim (Bool-cases (val % 2 == 1)) [
  | inl e ↦ rw e (ground (arith, count_bits-Counted r (count + 1) (val / 2)))
  | inr e ↦ rw e (ground (arith, count_bits-Counted r count (val / 2)))
]

parse_hex-bound :
    (value : ℕ) (s : Bytes) (n : ℕ) → value < 65536 → parse_hex value s ≡ some n → n < 65536
unfolding parse_hex
parse_hex-bound value [] n h e = ground arith
parse_hex-bound value (c ∷ cs) n h e = elim (Option-cases (hex_value c)) [
  | inl x ↦ ground arith
  | inr (digit, x) ↦ ground (arith, x, parse_hex-bound (value * 16 + digit) cs n)
]

parse_reach-bound : (s : Bytes) (n : ℕ) → parse_reach s ≡ some n → n < 65536
unfolding parse_reach
parse_reach-bound [] n e = cc
parse_reach-bound (c ∷ cs) n e = parse_hex-bound 0 (c ∷ cs) n (omega arith) e

reach_quality_bounds :
    (val : Option ℕ)
    → ((n : ℕ) → val ≡ some n → n < 65536)
    → (reach_quality val ≤ 100)
      × (reach_quality val ≡ 100 ↔ val ≡ some 65535)
      × (reach_quality val ≡ 0 ↔ ((val ≡ none) ⊎ (val ≡ some 0)))
reach_quality_bounds none h = ground arith
reach_quality_bounds (some n) h = ground (arith, count_bits-Counted 16 0 n, h n)

-- The quality that `reachToLQ` gives is at most 100. It is 100 exactly when the text is a number in
-- base 16 with all sixteen bits set, and 0 exactly when it is zero or no such number.
pub reach_to_lq_bounds :
    (reach : Bytes)
    → (reach_to_lq reach ≤ 100)
      × (reach_to_lq reach ≡ 100 ↔ parse_reach reach ≡ some 65535)
      × (reach_to_lq reach ≡ 0 ↔ ((parse_reach reach ≡ none) ⊎ (parse_reach reach ≡ some 0)))
unfolding reach_to_lq
reach_to_lq_bounds reach = reach_quality_bounds (parse_reach reach) (parse_reach-bound reach)
