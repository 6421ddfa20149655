-- ===== src/Users/Accounts/Unique.antt =====
-- internal/server/api/controllers/v1/users.go: names stay unique.
use mesh_manager.Common.{
  ℕ, ◌<◌, ◌≡◌, refl, ap, sym, subst, inl, inr, Bool, true, false, List, [], ◌∷◌, Option, none, some,
  Bytes, equal, ◌==◌, length, select, arith, Bool-cases,
}
use mesh_manager.Store.{put}
use mesh_manager.Models.{found, first_of}
use mesh_manager.Users.{User, no_user, UserStore, user_keyed, found_user, find_user_by_id}
use mesh_manager.Users.Accounts.{
  Outcome, table_of, UserRegistration, username_fault, Outside, Verdict, fine, panics, reply,
  when_free, after_create, when_fine, register, post_user, with_password, after_save, patch_found,
  patch_id, parse_user_id, patch_user, after_remove, remove_existing, remove_id, delete_user,
}
use mesh_manager.Users.Accounts.Rows.{
  count_name, AreUnique, no_row, append-AreUnique, put-AreUnique, put_same-AreUnique,
  drop_key-AreUnique, row_with_id,
}

module _ (s : UserStore) (w : Outside) where
  open s use {
    Db, query, count, create, save, remove, rows, query-rows, create-rows, save-rows, remove-rows,
  }

  abbrev Kept : Outcome Db → Type 0
  Kept o = AreUnique (rows (table_of o))

  when_free-Kept :
      (name failure : Bytes) (d : Db) (next : Outcome Db) (found_ : Option (List User))
      → query d (λ u. equal u.username name) ≡ found_
      → AreUnique (rows d)
      → (count_name name (rows d) ≡ 0 → Kept next)
      → Kept (when_free s w found_ failure d next)
  when_free-Kept name failure d next none e k go = k
  when_free-Kept name failure d next (some us) e k go =
      elim (Bool-cases ((found_user (some us)).id == 0)) [
        | inl free ↦ rw free (go (ap length (no_row (rows d) _ us k.1 (query-rows d _ us e) free)))
        | inr taken ↦ rw taken k
      ]

  create_user-Kept :
      (json : UserRegistration) (d : Db) (made : Option (Db × User))
      → create d (record no_user { username = json.username; password = w.hash json.password })
        ≡ made
      → AreUnique (rows d)
      → count_name json.username (rows d) ≡ 0
      → Kept (after_create s w d made)
  create_user-Kept json d none e k free = k
  create_user-Kept json d (some (d', u)) e k free =
      let (i, positive, fresh, is_u, is_rows) = create-rows d d' _ u e in
      subst AreUnique (sym is_rows) (
        append-AreUnique (rows d) u k
          (subst (λ (v : User). count_name v.username (rows d) ≡ 0) (sym is_u) free)
          (subst (λ (v : User). 0 < v.id) (sym is_u) positive))

  when_fine-Kept :
      (v : Verdict) (json : UserRegistration) (d : Db)
      → AreUnique (rows d)
      → count_name json.username (rows d) ≡ 0
      → Kept (when_fine s w v json d)
  when_fine-Kept fine json d k free = create_user-Kept json d _ refl k free
  when_fine-Kept panics json d k free = k
  when_fine-Kept (reply status text) json d k free = k

  register-Kept :
      (fault : Option Bytes) (json : UserRegistration) (d : Db)
      → AreUnique (rows d)
      → Kept (register s w fault json d)
  register-Kept (some fault) json d k = k
  register-Kept none json d k = elim (Bool-cases (equal json.password [])) [
    | inl e ↦ rw e k
    | inr e ↦ rw e (when_free-Kept json.username _ d _ _ refl k (when_fine-Kept _ json d k))
  ]

  post_user-Kept :
      (json : Option UserRegistration) (d : Db) → AreUnique (rows d) → Kept (post_user s w json d)
  unfolding post_user
  post_user-Kept none d k = k
  post_user-Kept (some json) d k = register-Kept (username_fault json.username) json d k

  save_user-Kept :
      (a : User) (d : Db) (made : Option Db)
      → save d a ≡ made
      → AreUnique (rows d)
      → AreUnique (put user_keyed.key a (rows d))
      → Kept (after_save s w d made)
  save_user-Kept a d none e k next = k
  save_user-Kept a d (some d') e k next = subst AreUnique (sym (save-rows d d' a e)) next

  with_password-same :
      (password : Bytes) (u : User)
      → ((with_password s w password u).username ≡ u.username)
        × ((with_password s w password u).id ≡ u.id)
  with_password-same password u = ground arith

  patch_row-Kept :
      (json : UserRegistration) (u : User) (vs : List User) (d : Db)
      → AreUnique (rows d)
      → select (λ v. v.id == u.id) (rows d) ≡ u ∷ vs
      → 0 < u.id
      → Kept (patch_found s w json (found u) d)
  patch_row-Kept json u vs d k there positive = elim (Bool-cases (equal json.username [])) [
    | inl e ↦ rw e (
        let same = with_password-same json.password u in
        save_user-Kept (with_password s w json.password u) d _ refl k (
          put_same-AreUnique (rows d) (with_password s w json.password u) u vs k same.0
            (subst (λ j. select (λ v. v.id == j) (rows d) ≡ u ∷ vs) (sym same.1) there)
            (subst (◌<◌ 0) (sym same.1) positive)))
    | inr e ↦ rw e (
        let renamed : User = record u { username = json.username } in
        let same = with_password-same json.password renamed in
        when_free-Kept json.username _ d _ _ refl k (λ free.
          save_user-Kept (with_password s w json.password renamed) d _ refl k (
            put-AreUnique (rows d) (with_password s w json.password renamed) k
              (subst (λ n. count_name n (rows d) ≡ 0) (sym same.0) free)
              (subst (◌<◌ 0) (sym same.1) positive))))
  ]

  patch_found-Kept :
      (json : UserRegistration) (d : Db) (i : ℕ) (found_ : Option (List User))
      → query d (λ u. u.id == i) ≡ found_
      → AreUnique (rows d)
      → Kept (patch_found s w json (first_of found_) d)
  patch_found-Kept json d i none e k = k
  patch_found-Kept json d i (some []) e k = k
  patch_found-Kept json d i (some (u ∷ vs)) e k =
      let there = row_with_id (rows d) i u vs k.1 (query-rows d _ (u ∷ vs) e) in
      patch_row-Kept json u vs d k there.0 there.1

  patch_id-Kept :
      (i : Option ℕ) (json : Option UserRegistration) (d : Db)
      → AreUnique (rows d)
      → Kept (patch_id s w i json d)
  unfolding find_user_by_id
  patch_id-Kept none json d k = k
  patch_id-Kept (some i) none d k = k
  patch_id-Kept (some i) (some json) d k = patch_found-Kept json d i _ refl k

  removed-Kept :
      (d : Db) (i : ℕ) (made : Option Db)
      → remove d i ≡ made
      → AreUnique (rows d)
      → Kept (after_remove s w d made)
  removed-Kept d i none e k = k
  removed-Kept d i (some d') e k = elim (remove-rows d d' i e) [
    | inl gone ↦ subst AreUnique (sym gone) (drop_key-AreUnique (rows d) i k)
    | inr same ↦ subst AreUnique (sym same) k
  ]

  remove_existing-Kept :
      (i : ℕ) (there : Option Bool) (d : Db)
      → AreUnique (rows d)
      → Kept (remove_existing s w i there d)
  remove_existing-Kept i none d k = k
  remove_existing-Kept i (some false) d k = k
  remove_existing-Kept i (some true) d k = removed-Kept d i _ refl k

  remove_id-Kept : (i : Option ℕ) (d : Db) → AreUnique (rows d) → Kept (remove_id s w i d)
  remove_id-Kept none d k = k
  remove_id-Kept (some i) d k = remove_existing-Kept i _ d k

  -- No two users come to have one name, and no id is 0, by a request that creates, changes or
  -- deletes a user, whatever it asks for and whatever the calls answer. This holds if no two have
  -- one name before, without help from the database, when requests do not overlap.
  pub accounts-AreUnique :
      (d : Db) (id : Bytes) (json : Option UserRegistration)
      → AreUnique (rows d)
      → AreUnique (rows (table_of (post_user s w json d)))
        × AreUnique (rows (table_of (patch_user s w id json d)))
        × AreUnique (rows (table_of (delete_user s w id d)))
  unfolding patch_user delete_user
  accounts-AreUnique d id json k = (
    post_user-Kept json d k,
    patch_id-Kept (parse_user_id s w id) json d k,
    remove_id-Kept (parse_user_id s w id) d k,
  )
