-- ===== src/Users/Login.antt =====
-- internal/server/api/controllers/v1/auth.go and internal/server/api/middleware/auth.go: the log-
-- in, the log-out, and the tests of a session. `VerifyPassword` of internal/utils/password.go is
-- here up to the count of the fields of a hash; what the libraries scan, decode and compare in them
-- is the parameter `matches`.
use mesh_manager.Common.{
  ℕ, Bool, true, false, not, ◌&&◌, ◌||◌, List, [], ◌∷◌, ◌++◌, Option, none, some, Bytes, codes,
  split, length, any, equal, leb, ltb, ◌==◌, if◌then◌else◌,
}
use mesh_manager.Net.{Ip, v4, v6, parse_ip}
use mesh_manager.Models.{First, found, not_found, failed}
use mesh_manager.Users.{User, UserStore, found_user, find_user_by_id}

-- What a session has under `user_id`: a uint, or a value of another type.
pub data Stored : Type 0 where
  uid : ℕ → Stored
  other : Stored

-- What a handler writes: a status and the text of its message.
pub record Answer : Type 0 where
  pub status : ℕ
  pub text : Bytes

abbrev pub answer : ℕ → Bytes → List Answer
answer status text = record { status = status; text = text } ∷ []

pub record AuthLogin : Type 0 where
  pub username : Bytes
  pub password : Bytes

-- A request to log in: where it comes from, its body if that can be bound, and whether the store of
-- sessions can save one.
pub record LoginRequest : Type 0 where
  pub client_ip : Bytes
  pub body : Option AuthLogin
  pub saves : Bool

-- What is written, and what the session has afterwards.
pub record Login : Type 0 where
  pub written : List Answer
  pub session : Option Stored

abbrev pub first_byte : Bytes → ℕ
first_byte [] = 0
first_byte (b ∷ bs) = b

-- `IsPrivate`: 10/8, 172.16/12, 192.168/16 and fc00::/7. What cannot be parsed is not private.
abbrev pub is_private : Option Ip → Bool
is_private none = false
is_private (some (v4 q)) =
    q.o0 == 10 || (q.o0 == 172 && leb 16 q.o1 && leb q.o1 31) || (q.o0 == 192 && q.o1 == 168)
is_private (some (v6 bytes)) = leb 252 (first_byte bytes) && leb (first_byte bytes) 253

module _ (matches : Bytes → List Bytes → Option Bool) where
  unfoldable pub verify_password : Bytes → Bytes → Bytes → Option Bool
  verify_password password hash salt =
      if length (split b'$' hash) == 6 then matches (password ++ salt) (split b'$' hash) else none

abbrev pub authentication_failed : List Answer
authentication_failed = answer 401 (codes "Authentication failed")

-- `session.Set` and `session.Save`.
abbrev pub save_session : Bool → ℕ → Option Stored → Login
save_session false id old = record {
  written = answer 500 (codes "Error saving session");
  session = old;
}
save_session true id old = record {
  written = answer 200 (codes "Logged in");
  session = some (uid id);
}

abbrev pub when_verified : Option Bool → Bool → ℕ → Option Stored → Login
when_verified none saves id old = record { written = authentication_failed; session = old }
when_verified (some false) saves id old = record { written = authentication_failed; session = old }
when_verified (some true) saves id old = save_session saves id old

module _ (s : UserStore) (matches : Bytes → List Bytes → Option Bool)
    (parse_v6 : Bytes → Option Bytes) (trusted_proxies : List Bytes) (salt : Bytes) where
  open s use {Db, query}

  -- `Find`, whose error is not read, and the check of the password.
  abbrev pub try_user : AuthLogin → Bool → Option (List User) → Option Stored → Login
  try_user json saves rows old =
      when_verified (verify_password matches json.password (found_user rows).password salt) saves
        (found_user rows).id old

  abbrev pub try_login : LoginRequest → Option AuthLogin → Db → Option Stored → Login
  try_login r none d old = record {
    written = answer 400 (codes "JSON data is invalid") ++ authentication_failed;
    session = old;
  }
  try_login r (some json) d old =
      if equal json.username []
      then record { written = answer 400 (codes "Username must be provided"); session = old }
      else if equal json.password []
      then record { written = answer 400 (codes "Password cannot be blank"); session = old }
      else try_user json r.saves (query d (λ u. equal u.username json.username)) old

  -- A log-in from the mesh, which is not encrypted.
  abbrev pub is_unencrypted : LoginRequest → Bool
  is_unencrypted r =
      is_private (parse_ip parse_v6 r.client_ip) && not (any (equal r.client_ip) trusted_proxies)

  unfoldable pub post_login : LoginRequest → Db → Option Stored → Login
  post_login r d old =
      if is_unencrypted r
      then record {
        written =
            answer 451
              (codes "Cannot encrypt traffic over the mesh. Please use the site via the internet.");
        session = old;
      }
      else try_login r r.body d old

unfoldable pub get_logout : Bool → Option Stored → Login
get_logout false old = record { written = answer 500 (codes "Error saving session"); session = old }
get_logout true old = record { written = answer 200 (codes "Logged out"); session = none }

abbrev pub is_found : First User → Bool
is_found (found u) = true
is_found not_found = false
is_found failed = false

module _ (s : UserStore) where
  open s use {Db, query}

  -- `RequireLogin`: whether the handler is reached. The first argument is whether the context has
  -- the dependencies; without them the middleware writes 500 but does not abort.
  unfoldable pub require_login : Bool → Option Stored → Db → Bool
  require_login has_deps none d = false
  require_login has_deps (some other) d = false
  require_login has_deps (some (uid u)) d =
      if ltb 2147483647 u
      then false
      else if not has_deps
      then true
      else (found_user (query d (λ v. v.id == u))).has_created_at

  -- `GETAuthCheck`: its status.
  unfoldable pub get_auth_check : Option Stored → Db → ℕ
  get_auth_check none d = 401
  get_auth_check (some other) d = 401
  get_auth_check (some (uid u)) d =
      if u == 0 then 401 else if is_found (find_user_by_id s d u) then 200 else 401
