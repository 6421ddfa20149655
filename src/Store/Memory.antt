-- ===== src/Store/Memory.antt =====
-- A table in memory that never fails: it shows that the laws of `Store` can be met, and tests run
-- on it.
use mesh_manager.Common.{
  ℕ, suc, ◌<◌, ◌≡◌, refl, inl, false, List, [], ◌∷◌, ◌++◌, Option, some, ltb, if◌then◌else◌, select,
  length, arith,
}
use mesh_manager.Store.{Keyed, Store, put, drop_key, has_key, map_where}

-- What a call that never fails gives.
pub same : {B : Type 0} {x y : B} → some x ≡ some y → y ≡ x
same h = cc

module _ {A : Type 0} (k : Keyed A) where
  abbrev highest_key : List A → ℕ
  highest_key [] = 0
  highest_key (x ∷ xs) = if ltb (highest_key xs) (k.key x) then k.key x else highest_key xs

  unused_key : (i : ℕ) (xs : List A) → highest_key xs < i → has_key k.key i xs ≡ false
  unused_key i [] h = refl
  unused_key i (x ∷ xs) h = ground (arith, unused_key i xs)

  fresh_key : (xs : List A) → has_key k.key (suc (highest_key xs)) xs ≡ false
  fresh_key xs = unused_key (suc (highest_key xs)) xs (omega arith)

  abbrev insert_new : List A → A → Option (List A × A)
  insert_new d a = let b = k.set_key (suc (highest_key d)) a in some (d ++ b ∷ [], b)

  pub insert_new-rows :
      (d d' : List A) (a b : A)
      → insert_new d a ≡ some (d', b)
      → (i : ℕ) × (0 < i) × (has_key k.key i d ≡ false) × (b ≡ k.set_key i a) × (d' ≡ d ++ b ∷ [])
  insert_new-rows d d' a b h =
      (suc (highest_key d), omega arith, fresh_key d, ground arith, ground arith)

  abbrev pub memory : Store A k
  memory = record {
    Db = List A;
    rows = λ d. d;
    query = λ d p. some (select p d);
    count = λ d p. some (length (select p d));
    create = insert_new;
    save = λ d a. some (put k.key a d);
    remove = λ d i. some (drop_key k.key i d);
    update = λ d p f. some (map_where p f d);
    query-rows = λ d p xs h. same h;
    count-rows = λ d p n h. same h;
    create-rows = insert_new-rows;
    save-rows = λ d d' a h. same h;
    remove-rows = λ d d' i e. inl (same e);
    update-rows = λ d d' p f h. same h;
  }
