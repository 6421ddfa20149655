-- ===== src/Common/Maps.antt =====
-- Maps from names, as `sync.Map` and Go's maps are used: association lists with their laws.
use mathlib.Core.Path.{◌≡◌, refl}
use mathlib.Core.List.{List, [], ◌∷◌}
use mathlib.Core.Option.{Option, none, some}
use native.Mathlib.Omega.{arith}
use mesh_manager.Common.Tests.{if◌then◌else◌, Bytes, equal, equal_iff}

module _ {V : Type 0} where
  unfoldable pub load : Bytes → List (Bytes × V) → Option V
  load k [] = none
  load k ((j, v) ∷ m) = if equal j k then some v else load k m

  -- A name that is not there is put at the end; a name that is there keeps its place.
  unfoldable pub store : Bytes → V → List (Bytes × V) → List (Bytes × V)
  store k v [] = (k, v) ∷ []
  store k v ((j, w) ∷ m) = if equal j k then (k, v) ∷ m else (j, w) ∷ store k v m

  unfoldable pub delete : Bytes → List (Bytes × V) → List (Bytes × V)
  delete k [] = []
  delete k ((j, v) ∷ m) = let rest = delete k m in if equal j k then rest else (j, v) ∷ rest

  pub load-store :
      (k j : Bytes) (v : V) (m : List (Bytes × V))
      → load j (store k v m) ≡ (if equal k j then some v else load j m)
  unfolding load store
  load-store k j v [] = refl
  load-store k j v ((i, w) ∷ m) =
      ground (arith, equal_iff k j, equal_iff i k, equal_iff i j, load-store k j v m)

  pub load-delete :
      (k j : Bytes) (m : List (Bytes × V))
      → load j (delete k m) ≡ (if equal k j then none else load j m)
  unfolding load delete
  load-delete k j [] = ground arith
  load-delete k j ((i, w) ∷ m) =
      ground (arith, equal_iff k j, equal_iff i k, equal_iff i j, load-delete k j m)
