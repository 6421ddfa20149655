-- ===== src/Common/Text.antt =====
-- The parts of Go's `strings` and `strconv` that the program uses, over bytes.
use Prim.Native.Nat.{ℕ, zero, suc, ◌+◌, ◌-◌, ◌*◌, ◌/◌, ◌%◌, ◌<◌}
use mathlib.Core.Path.{◌≡◌, refl, sym, ap, ◌∙◌}
use mathlib.Core.Logic.{inl, inr}
use mathlib.Core.Bool.{Bool, true, false, ◌&&◌, ◌||◌}
use mathlib.Core.List.{List, [], ◌∷◌, ◌++◌, map}
use mathlib.Core.Option.{Option, none, some}
use native.Mathlib.Omega.{arith}
use mesh_manager.Common.Tests.{ltb, leb, ◌==◌, if◌then◌else◌, Bytes, equal, Bool-cases}

-- `fmt.Sprintf("%d", n)`: the digits are put in front of `acc`, the last one first.
unfoldable pub digits : ℕ → ℕ → Bytes → Bytes
digits zero n acc = acc
digits (suc f) n acc =
    let rest = digits f (n / 10) ((48 + n % 10) ∷ acc) in if ltb n 10 then (48 + n) ∷ acc else rest

unfoldable pub itoa : ℕ → Bytes
unfolding digits
itoa n = digits (suc n) n []

-- The number that a row of digits stands for, after `v`.
pub value : ℕ → Bytes → ℕ
value v [] = v
value v (c ∷ cs) = value (v * 10 + (c - 48)) cs

value-digits : (f n : ℕ) (acc : Bytes) → n < f → value 0 (digits f n acc) ≡ value n acc
unfolding value digits
value-digits zero n acc h = absurd (omega arith)
value-digits (suc f) n acc h = elim (Bool-cases (ltb n 10)) [
  | inl small ↦ rw small (ap (λ (v : ℕ). value v acc) (omega arith))
  | inr large ↦ rw large (
      value-digits f (n / 10) ((48 + n % 10) ∷ acc) (ground arith)
      ∙ ap (λ (v : ℕ). value v acc) (omega arith))
]

pub value-itoa : (n : ℕ) → value 0 (itoa n) ≡ n
unfolding itoa value
value-itoa n = value-digits (suc n) n [] (omega arith)

-- Two numbers with one decimal form are equal.
pub itoa-injective : (a b : ℕ) → itoa a ≡ itoa b → a ≡ b
itoa-injective a b h = sym (value-itoa a) ∙ ap (value 0) h ∙ value-itoa b

-- `strings.HasPrefix(s, p)`.
unfoldable pub has_prefix : Bytes → Bytes → Bool
has_prefix s [] = true
has_prefix [] (y ∷ ys) = false
has_prefix (x ∷ xs) (y ∷ ys) = x == y && has_prefix xs ys

pub has_prefix-append : (p s : Bytes) → has_prefix (p ++ s) p ≡ true
unfolding has_prefix
has_prefix-append [] s = refl
has_prefix-append (x ∷ p) s = ground (arith, has_prefix-append p s)

-- `strings.Contains(s, p)`.
unfoldable pub contains : Bytes → Bytes → Bool
unfolding has_prefix
contains [] p = has_prefix [] p
contains (x ∷ xs) p = has_prefix (x ∷ xs) p || contains xs p

-- `strings.Split(s, sep)` for a separator of one byte: the piece so far is in front.
abbrev pub push_head : ℕ → List Bytes → List Bytes
push_head c [] = (c ∷ []) ∷ []
push_head c (p ∷ ps) = (c ∷ p) ∷ ps

unfoldable pub split : ℕ → Bytes → List Bytes
split sep [] = [] ∷ []
split sep (c ∷ cs) = let rest = split sep cs in if c == sep then [] ∷ rest else push_head c rest

-- `strings.ToLower` and `strings.ToUpper` on ASCII.
abbrev pub lower : ℕ → ℕ
lower c = if leb b'A' c && leb c b'Z' then c + 32 else c

abbrev pub upper : ℕ → ℕ
upper c = if leb b'a' c && leb c b'z' then c - 32 else c

unfoldable pub to_lower : Bytes → Bytes
to_lower = map lower

unfoldable pub to_upper : Bytes → Bytes
to_upper = map upper

-- A byte that `strings.TrimSpace` and `strings.Fields` take for white space.
abbrev pub is_space : ℕ → Bool
is_space c = c == b' ' || (leb 9 c && leb c 13)

unfoldable pub trim_left : Bytes → Bytes
trim_left [] = []
trim_left (c ∷ cs) = let rest = trim_left cs in if is_space c then rest else c ∷ cs

abbrev drop_space : ℕ → Bytes → Bytes
drop_space c [] = if is_space c then [] else c ∷ []
drop_space c (d ∷ ds) = c ∷ d ∷ ds

unfoldable pub trim_right : Bytes → Bytes
trim_right [] = []
trim_right (c ∷ cs) = drop_space c (trim_right cs)

unfoldable pub trim_space : Bytes → Bytes
unfolding trim_left trim_right
trim_space s = trim_right (trim_left s)

-- `strings.Fields(s)`: the words between white space. The flag says that a word is open.
abbrev close : Bool → List Bytes → List Bytes
close true ws = [] ∷ ws
close false ws = ws

words : Bool → Bytes → List Bytes
words open_word [] = close open_word []
words open_word (c ∷ cs) =
    let after = words false cs in
    let within = words true cs in if is_space c then close open_word after else push_head c within

unfoldable pub fields : Bytes → List Bytes
unfolding words
fields s = words false s

abbrev pub has_space : Bytes → Bool
has_space [] = false
has_space (c ∷ cs) = is_space c || has_space cs

open_word-space :
    (q s : Bytes) → has_space q ≡ false → words true (q ++ (32 ∷ s)) ≡ q ∷ words false s
unfolding words
open_word-space [] s h = refl
open_word-space (c ∷ q) s h = ground (arith, open_word-space q s)

open_word-end : (q : Bytes) → has_space q ≡ false → words true q ≡ q ∷ []
unfolding words
open_word-end [] h = refl
open_word-end (c ∷ q) h = ground (arith, open_word-end q)

-- A word with a space after it, and one at the end.
pub fields-space :
    (c : ℕ) (q s : Bytes)
    → has_space (c ∷ q) ≡ false
    → fields ((c ∷ q) ++ (32 ∷ s)) ≡ (c ∷ q) ∷ fields s
unfolding words fields
fields-space c q s h = ground (arith, open_word-space q s)

pub fields-end : (c : ℕ) (q : Bytes) → has_space (c ∷ q) ≡ false → fields (c ∷ q) ≡ (c ∷ q) ∷ []
unfolding words fields
fields-end c q h = ground (arith, open_word-end q)

pub has_space-append : (p q : Bytes) → has_space (p ++ q) ≡ has_space p || has_space q
has_space-append [] q = refl
has_space-append (c ∷ p) q = ground (arith, has_space-append p q)

digits-has_space :
    (f n : ℕ) (acc : Bytes) → has_space acc ≡ false → has_space (digits f n acc) ≡ false
unfolding digits
digits-has_space zero n acc h = h
digits-has_space (suc f) n acc h = ground (arith, digits-has_space f (n / 10) ((48 + n % 10) ∷ acc))

pub itoa-has_space : (n : ℕ) → has_space (itoa n) ≡ false
unfolding itoa
itoa-has_space n = digits-has_space (suc n) n [] refl

-- `strings.TrimSuffix` and `strings.TrimPrefix`.
unfoldable pub trim_suffix : Bytes → Bytes → Bytes
trim_suffix [] p = []
trim_suffix (x ∷ xs) p = if equal (x ∷ xs) p then [] else x ∷ trim_suffix xs p

unfoldable pub trim_prefix : Bytes → Bytes → Bytes
trim_prefix s [] = s
trim_prefix [] (y ∷ ys) = []
trim_prefix (x ∷ xs) (y ∷ ys) =
    let rest = trim_prefix xs ys in if has_prefix (x ∷ xs) (y ∷ ys) then rest else x ∷ xs

-- A Go `int`; `negsuc n` is -(n + 1).
pub data ℤ : Type 0 where
  pos : ℕ → ℤ
  negsuc : ℕ → ℤ

abbrev pub all_digits : Bytes → Bool
all_digits [] = true
all_digits (c ∷ cs) = leb b'0' c && leb c b'9' && all_digits cs

abbrev negative : ℕ → ℤ
negative zero = pos 0
negative (suc n) = negsuc n

-- An unsigned decimal, without a sign; none if it is malformed.
unfoldable pub parse_digits : Bytes → Option ℕ
unfolding value
parse_digits [] = none
parse_digits (c ∷ cs) = if all_digits (c ∷ cs) then some (value 0 (c ∷ cs)) else none

abbrev within : ℕ → Option ℕ → Option ℕ
within limit none = none
within limit (some n) = if ltb limit n then none else some n

-- `strconv.ParseUint(s, 10, bits)` with its largest value.
unfoldable pub parse_uint : ℕ → Bytes → Option ℕ
unfolding parse_digits
parse_uint limit s = within limit (parse_digits s)

abbrev as_pos : Option ℕ → Option ℤ
as_pos none = none
as_pos (some n) = some (pos n)

abbrev as_negative : Option ℕ → Option ℤ
as_negative none = none
as_negative (some n) = some (negative n)

-- `strconv.ParseInt(s, 10, bits)` with its largest value; the smallest is one below its negation.
unfoldable pub parse_int : ℕ → Bytes → Option ℤ
unfolding parse_digits
parse_int limit [] = none
parse_int limit (c ∷ cs) =
    if c == b'-'
    then as_negative (within (limit + 1) (parse_digits cs))
    else if c == b'+'
    then as_pos (within limit (parse_digits cs))
    else as_pos (within limit (parse_digits (c ∷ cs)))
