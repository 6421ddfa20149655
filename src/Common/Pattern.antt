-- ===== src/Common/Pattern.antt =====
-- The patterns of Go's `regexp` that the program uses, matched as it does: the leftmost match, and
-- of those the first that a search with backtracking finds, in which `*` and `+` try the longest.
use Prim.Native.Nat.{ℕ}
use mathlib.Core.Bool.{Bool, true, not, ◌||◌, ◌&&◌}
use mathlib.Core.List.{List, [], ◌∷◌, ◌++◌}
use mathlib.Core.Option.{Option, none, some}
use mesh_manager.Common.Tests.{leb, ◌==◌, if◌then◌else◌, Bytes}

-- A literal, `.*`, `.+`, `(.*)`, `(…+)` over a class of bytes, `\s+`, `$`, `(?:/(…+))?`, `.*\b`
-- behind a byte of a word or of none, and `\b` behind a byte of a word. What stands in parentheses
-- is captured, and is empty where an optional part is left out.
pub data Piece : Type 0 where
  lit : Bytes → Piece
  any_star any_plus group_star : Piece
  group : (ℕ → Bool) → Piece
  blanks at_end word_end : Piece
  slash_group : (ℕ → Bool) → Piece
  star_edge : Bool → Piece

-- `[^ \t]` and `[0-9]`.
abbrev pub in_word : ℕ → Bool
in_word c = not (c == b' ' || c == 9)

abbrev pub in_number : ℕ → Bool
in_number c = leb b'0' c && leb c b'9'

-- `\s`.
abbrev pub is_blank : ℕ → Bool
is_blank c = c == b' ' || (leb 9 c && leb c 10) || (leb 12 c && leb c 13)

-- `\w`.
abbrev pub is_word : ℕ → Bool
is_word c =
    (leb b'0' c && leb c b'9')
    || (leb b'A' c && leb c b'Z')
    || (leb b'a' c && leb c b'z')
    || c == b'_'

abbrev pub or_else : {A : Type 0} → Option A → Option A → Option A
or_else (some a) other = some a
or_else none other = other

unfoldable pub strip : Bytes → Bytes → Option Bytes
strip [] s = some s
strip (p ∷ ps) [] = none
strip (p ∷ ps) (c ∷ cs) = let rest = strip ps cs in if p == c then rest else none

-- The rest of a pattern is `k`.
unfoldable pub star : (Bytes → Option (List Bytes)) → Bytes → Option (List Bytes)
star k [] = k []
star k (c ∷ cs) = or_else (star k cs) (k (c ∷ cs))

abbrev pub capture : Bytes → Option (List Bytes) → Option (List Bytes)
capture taken none = none
capture taken (some groups) = some (taken ∷ groups)

unfoldable pub grab :
    (ℕ → Bool) → (Bytes → Option (List Bytes)) → Bytes → Bytes → Option (List Bytes)
grab p k taken [] = capture taken (k [])
grab p k taken (c ∷ cs) =
    let longer = or_else (grab p k (taken ++ (c ∷ [])) cs) (capture taken (k (c ∷ cs))) in
    if p c then longer else capture taken (k (c ∷ cs))

-- The rest of a run of `\s`.
unfoldable pub pass_blanks : (Bytes → Option (List Bytes)) → Bytes → Option (List Bytes)
pass_blanks k [] = k []
pass_blanks k (c ∷ cs) =
    let longer = or_else (pass_blanks k cs) (k (c ∷ cs)) in
    if is_blank c then longer else k (c ∷ cs)

-- A `/` and a group behind it.
abbrev pub after_slash : (ℕ → Bool) → (Bytes → Option (List Bytes)) → Bytes → Option (List Bytes)
after_slash p k (c ∷ d ∷ cs) = if c == b'/' && p d then grab p k (d ∷ []) cs else none
after_slash p k _ = none

-- `.*\b`, where `w` tells whether the byte before is one of a word.
unfoldable pub edge : (Bytes → Option (List Bytes)) → Bool → Bytes → Option (List Bytes)
edge k w [] = if w then k [] else none
edge k w (c ∷ cs) =
    or_else (edge k (is_word c) cs)
      (if (w && not (is_word c)) || (not w && is_word c) then k (c ∷ cs) else none)

-- A match at the start of a text: the groups.
unfoldable pub match_at : List Piece → Bytes → Option (List Bytes)
unfolding strip star grab pass_blanks edge
match_at [] s = some []
match_at (lit t ∷ ps) s = elim (strip t s) [ none ↦ none | some rest ↦ match_at ps rest ]
match_at (any_star ∷ ps) s = star (match_at ps) s
match_at (any_plus ∷ ps) [] = none
match_at (any_plus ∷ ps) (c ∷ cs) = star (match_at ps) cs
match_at (group_star ∷ ps) s = grab (λ c. true) (match_at ps) [] s
match_at (blanks ∷ ps) [] = none
match_at (blanks ∷ ps) (c ∷ cs) = if is_blank c then pass_blanks (match_at ps) cs else none
match_at (at_end ∷ ps) [] = match_at ps []
match_at (at_end ∷ ps) (c ∷ cs) = none
match_at (word_end ∷ ps) [] = match_at ps []
match_at (word_end ∷ ps) (c ∷ cs) = if is_word c then none else match_at ps (c ∷ cs)
match_at (slash_group p ∷ ps) s =
    or_else (after_slash p (match_at ps) s) (capture [] (match_at ps s))
match_at (star_edge w ∷ ps) s = edge (match_at ps) w s
match_at (group p ∷ ps) [] = none
match_at (group p ∷ ps) (c ∷ cs) = if p c then grab p (match_at ps) (c ∷ []) cs else none

-- The leftmost match.
unfoldable pub match_in : List Piece → Bytes → Option (List Bytes)
unfolding match_at
match_in ps [] = match_at ps []
match_in ps (c ∷ cs) = or_else (match_at ps (c ∷ cs)) (match_in ps cs)
