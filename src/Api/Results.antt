-- ===== src/Api/Results.antt =====
-- internal/server/api/controllers/v1/tunnels.go: what a run of handler steps that goes on has done.
use mesh_manager.Common.{ℕ, ◌≡◌, refl, Bool, true, false, Option, none, some}
use mesh_manager.Api.{Message, Handled, next, replied, panicked, Handler, ◌>>=◌, refuse, require}
use mesh_manager.Api.Checks.{Checks}

module _ {S : Type 0} where
  next_after :
      {A B : Type 0} (h : Handled S A) (f : A → Handler S B) (s' : S) (b : B)
      → elim h [ next s' a ↦ f a s' | replied s' r ↦ replied s' r | panicked s' ↦ panicked s' ]
        ≡ next s' b
      → (s₁ : S) × (a : A) × (h ≡ next s₁ a) × (f a s₁ ≡ next s' b)
  next_after (next s₁ a) f s' b e = (s₁, a, refl, e)
  next_after (replied s₁ r) f s' b e = cc
  next_after (panicked s₁) f s' b e = cc

  -- A run that goes on has gone on after its first step, too.
  pub >>=-next :
      {A B : Type 0} (m : Handler S A) (f : A → Handler S B) (s s' : S) (b : B)
      → (m >>= f) s ≡ next s' b
      → (s₁ : S) × (a : A) × (m s ≡ next s₁ a) × (f a s₁ ≡ next s' b)
  >>=-next m f s s' b e = next_after (m s) f s' b e

  kept : {A : Type 0} (s s₁ : S) (a : A) (h : Handled S A) → Checks s h → h ≡ next s₁ a → s₁ ≡ s
  kept s s₁ a (next s₂ b) p e = cc
  kept s s₁ a (replied s₂ r) p e = cc
  kept s s₁ a (panicked s₂) p e = cc

  -- After a check the state is the same.
  pub check-next :
      {A B : Type 0} (m : Handler S A) (f : A → Handler S B) (s s' : S) (b : B)
      → Checks s (m s)
      → (m >>= f) s ≡ next s' b
      → (a : A) × (m s ≡ next s a) × (f a s ≡ next s' b)
  check-next m f s s' b p e =
      let (s₁, a, first, more) = >>=-next m f s s' b e in
      let same : s₁ ≡ s = kept s s₁ a (m s) p first in (a, cc, cc)

  pub refuse-next :
      (fails : Bool) (m : Message) (s s' : S) (u : Unit {0})
      → refuse fails m s ≡ next s' u
      → fails ≡ false
  refuse-next true m s s' u e = cc
  refuse-next false m s s' u e = refl

  pub require-next :
      {A : Type 0} (n : ℕ) (o : Option A) (m : Message) (s s' : S) (a : A)
      → require n o m s ≡ next s' a
      → o ≡ some a
  require-next n none m s s' a e = cc
  require-next n (some b) m s s' a e = cc
