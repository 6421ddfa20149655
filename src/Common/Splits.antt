-- ===== src/Common/Splits.antt =====
-- `strings.Split` at one byte.
use Prim.Native.Nat.{ℕ}
use mathlib.Core.Path.{◌≡◌, refl}
use mathlib.Core.Logic.{inl, inr}
use mathlib.Core.Bool.{false}
use mathlib.Core.List.{List, [], ◌∷◌, ◌++◌}
use native.Mathlib.Omega.{arith}
use mesh_manager.Common.Tests.{◌==◌, Bytes, Bool-cases}
use mesh_manager.Common.Lists.{any, All}
use mesh_manager.Common.Text.{split, push_head}

-- `split` at a separator that stands in one place.
pub split_none : (sep : ℕ) (xs : Bytes) → any (λ c. c == sep) xs ≡ false → split sep xs ≡ xs ∷ []
unfolding split
split_none sep [] h = refl
split_none sep (x ∷ xs) h = ground (arith, split_none sep xs)

pub split_one :
    (sep : ℕ) (xs ys : Bytes)
    → any (λ c. c == sep) xs ≡ false
    → split sep (xs ++ (sep ∷ ys)) ≡ xs ∷ split sep ys
unfolding split
split_one sep [] ys h = ground arith
split_one sep (x ∷ xs) ys h = ground (arith, split_one sep xs ys)

push_head-All :
    (sep x : ℕ) (ps : List Bytes)
    → (x == sep) ≡ false
    → All (λ p. any (λ c. c == sep) p ≡ false) ps
    → All (λ p. any (λ c. c == sep) p ≡ false) (push_head x ps)
push_head-All sep x [] h k = ground arith
push_head-All sep x (p ∷ ps) h k = ground arith

-- No part that `split` gives contains the separator.
pub split-parts : (sep : ℕ) (xs : Bytes) → All (λ p. any (λ c. c == sep) p ≡ false) (split sep xs)
unfolding split
split-parts sep [] = (refl, tt)
split-parts sep (x ∷ xs) = elim (Bool-cases (x == sep)) [
  | inl e ↦ rw e (refl, split-parts sep xs)
  | inr e ↦ rw e (push_head-All sep x (split sep xs) e (split-parts sep xs))
]
