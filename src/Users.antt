-- ===== src/Users.antt =====
-- internal/db/models/user.go: the users and the queries over them. Of the dates only whether
-- `CreatedAt` is set is kept.
pub mod Login
pub mod Sessions
pub mod Accounts
mod Tests
use mesh_manager.Common.{ℕ, Bool, true, false, List, [], ◌∷◌, Option, none, some, Bytes, ◌==◌}
use mesh_manager.Store.{Keyed, Store}
use mesh_manager.Models.{First, first_of, exists_of}

pub record User : Type 0 where
  pub id : ℕ
  pub username : Bytes
  pub password : Bytes
  pub has_created_at : Bool

-- `var user models.User`.
abbrev pub no_user : User
no_user = record { id = 0; username = []; password = []; has_created_at = false }

abbrev pub user_keyed : Keyed User
user_keyed = record { key = λ u. u.id; set_key = λ i u. record u { id = i; has_created_at = true } }

abbrev pub UserStore : Type 1
UserStore = Store User user_keyed

-- The user after `Find(&user, …)`: the row found, and the zero value without one or after an error.
abbrev pub found_user : Option (List User) → User
found_user none = no_user
found_user (some []) = no_user
found_user (some (u ∷ us)) = u

module _ (s : UserStore) where
  open s use {Db, query, count}

  unfoldable pub user_id_exists : Db → ℕ → Option Bool
  user_id_exists d i = exists_of (count d (λ u. u.id == i))

  unfoldable pub find_user_by_id : Db → ℕ → First User
  find_user_by_id d i = first_of (query d (λ u. u.id == i))

  unfoldable pub list_users : Db → Option (List User)
  list_users d = query d (λ u. true)

  unfoldable pub count_users : Db → Option ℕ
  count_users d = count d (λ u. true)
