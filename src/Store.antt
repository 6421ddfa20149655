-- ===== src/Store.antt =====
-- The table of one kind of record behind `gorm.DB`, which the program calls and does not implement.
-- The operations are those that the program uses; each may fail. The laws state the documented
-- behaviour of a call that succeeds. A condition of `Where` is a Boolean test on a row, and rows
-- come in the order of their ids, as under `Order("id asc")`. Rows that were soft-deleted are no
-- rows here: the program deletes with `Unscoped`.
pub mod Memory
use mesh_manager.Common.{
  ℕ, suc, ◌+◌, ◌≤◌, ◌<◌, ◌≡◌, ◌≢◌, refl, ◌⊎◌, inl, inr, Bool, true, false, not, List, [], ◌∷◌, ◌++◌,
  Option, none, some, ◌==◌, if◌then◌else◌, select, any, length,
}

module _ {A : Type 0} (key : A → ℕ) where
  -- The rows after one is written over the row with its id, or added when no row has it.
  abbrev pub put : A → List A → List A
  put a [] = a ∷ []
  put a (x ∷ xs) = if key x == key a then a ∷ xs else x ∷ put a xs

  -- The rows after those with an id are deleted.
  abbrev pub drop_key : ℕ → List A → List A
  drop_key k = select (λ x. not (key x == k))

  abbrev pub has_key : ℕ → List A → Bool
  has_key k = any (λ x. key x == k)

-- The rows after `f` is applied to those that pass a test.
abbrev pub map_where : {A : Type 0} → (A → Bool) → (A → A) → List A → List A
map_where p f [] = []
map_where p f (x ∷ xs) = (if p x then f x else x) ∷ map_where p f xs

-- A row type: its id, and the row as it is created under an id, with the defaults of its columns.
pub record Keyed (A : Type 0) : Type 0 where
  pub key : A → ℕ
  pub set_key : ℕ → A → A

pub record Store (A : Type 0) (k : Keyed A) : Type 1 where
  pub Db : Type 0
  pub rows : Db → List A
  -- `Where(p).Find(&xs)`, `Where(p).Count(&n)`.
  pub query : Db → (A → Bool) → Option (List A)
  pub count : Db → (A → Bool) → Option ℕ
  -- `Create(&a)` for a row with no id yet: the table gives it one.
  pub create : Db → A → Option (Db × A)
  -- `Save(&a)` for a row with an id.
  pub save : Db → A → Option Db
  -- `Unscoped().Delete(&A{ID: id})` in a transaction, which can fail to begin or to be committed.
  -- The program does not read the error of the deletion itself.
  pub remove : Db → ℕ → Option Db
  -- `Where(p).Update(...)`.
  pub update : Db → (A → Bool) → (A → A) → Option Db
  pub query-rows :
      (d : Db) (p : A → Bool) (xs : List A) → query d p ≡ some xs → xs ≡ select p (rows d)
  pub count-rows :
      (d : Db) (p : A → Bool) (n : ℕ) → count d p ≡ some n → n ≡ length (select p (rows d))
  pub create-rows :
      (d d' : Db) (a b : A)
      → create d a ≡ some (d', b)
      → (i : ℕ) × (0 < i)
        × (has_key k.key i (rows d) ≡ false)
        × (b ≡ k.set_key i a)
        × (rows d' ≡ rows d ++ b ∷ [])
  pub save-rows : (d d' : Db) (a : A) → save d a ≡ some d' → rows d' ≡ put k.key a (rows d)
  pub remove-rows :
      (d d' : Db) (i : ℕ)
      → remove d i ≡ some d'
      → (rows d' ≡ drop_key k.key i (rows d)) ⊎ (rows d' ≡ rows d)
  pub update-rows :
      (d d' : Db) (p : A → Bool) (f : A → A)
      → update d p f ≡ some d'
      → rows d' ≡ map_where p f (rows d)
