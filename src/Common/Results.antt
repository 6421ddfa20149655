-- ===== src/Common/Results.antt =====
-- What a Go call that can fail gives back: a value, an error, or a panic.
use mathlib.Core.Option.{Option, none, some}

pub data Result (E : Type 0) (A : Type 0) : Type 0 where
  panic : Result E A
  err : E → Result E A
  ok : A → Result E A

module _ {E : Type 0} where
  infixl 5 ◌>>=◌ ◌>>◌
  abbrev pub ◌>>=◌ : {A B : Type 0} → Result E A → (A → Result E B) → Result E B
  panic >>= then_do = panic
  err cause >>= then_do = err cause
  ok value >>= then_do = then_do value

  abbrev pub ◌>>◌ : {B : Type 0} → Result E (Unit {0}) → Result E B → Result E B
  checked >> rest = checked >>= λ nothing. rest

  -- A call that reports an error by its absence.
  abbrev pub or_err : {A : Type 0} → Option A → E → Result E A
  or_err (some value) cause = ok value
  or_err none cause = err cause

  -- A read through a nil pointer or out of range.
  abbrev pub or_panic : {A : Type 0} → Option A → Result E A
  or_panic (some value) = ok value
  or_panic none = panic
