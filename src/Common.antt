-- ===== src/Common.antt =====
-- The names that the other modules share: the libraries', passed on, and those of two children.
mod Tests
mod Lists
mod Text
mod Results
mod Maps
mod Splits
mod Pattern
pub use Tests.*
unfoldable pub use Tests.{equal}
pub use Lists.*
pub use Prim.Native.Nat.{ℕ, zero, suc, ◌+◌, ◌-◌, ◌*◌, ◌/◌, ◌%◌, ◌^◌, ◌≤◌, ◌<◌}
pub use mathlib.Core.Path.{◌≡◌, refl, sym, ap, ◌∙◌, subst}
pub use mathlib.Core.Logic.{◌≢◌, ◌↔◌, ◌⊎◌, inl, inr}
pub use mathlib.Core.Bool.{Bool, true, false, not, ◌&&◌, ◌||◌}
pub use mathlib.Core.Option.{Option, none, some}
pub use mathlib.Core.List.{List, [], ◌∷◌, ◌++◌, map}
pub use native.Mathlib.Omega.{arith}
pub use Text.*
unfoldable pub use Text.{
  digits, itoa, has_prefix, contains, split, to_lower, to_upper, trim_left, trim_right, trim_space,
  fields, trim_suffix, trim_prefix, parse_digits, parse_uint, parse_int,
}
pub use Results.*
pub use Maps.*
unfoldable pub use Maps.{load, store, delete}
pub use Splits.*
pub use Pattern.*
unfoldable pub use Pattern.{strip, star, grab, pass_blanks, edge, match_at, match_in}
