-- ===== src/Users/Tests.antt =====
-- internal/server/api/controllers/v1/auth.go and internal/server/api/middleware/auth.go: sessions
-- over a table in memory.
use mesh_manager.Common.{
  ◌≡◌, ◌⊎◌, refl, parse_digits, parse_int, parse_uint, has_prefix, arith, Bool, true, false, List,
  [], ◌∷◌, Option, none, some, Bytes, codes, equal, split,
}
use mesh_manager.Net.{parse_ip}
use mesh_manager.Store.Memory.{memory}
use mesh_manager.Users.{User, no_user, UserStore, user_keyed, find_user_by_id}
use mesh_manager.Users.Login.{LoginRequest, answer, uid, verify_password, post_login, require_login}
use mesh_manager.Users.Accounts.{
  said, shown, wrote, table_of, UserRegistration, username_fault, Outside, gave, check_pwned,
  post_user, patch_user, delete_user, get_user,
}
use mesh_manager.Users.Accounts.Rows.{AreUnique}
use mesh_manager.Users.Accounts.Unique.{accounts-AreUnique}
use mesh_manager.Users.Sessions.{
  Decided, post_login-Decided, HoldsUser, HoldsId, require_login-HoldsUser,
}

abbrev users : UserStore
users = memory user_keyed

abbrev admin : User
admin = record {
  id = 1;
  username = codes "admin";
  password = codes "$argon2id$v=19$m=1,t=1,p=1$c2FsdA$aGFzaA";
  has_created_at = true;
}

-- The password is "secret", with the salt "-salt".
abbrev is_secret : Bytes → List Bytes → Option Bool
is_secret given fields = some (equal given (codes "secret-salt"))

abbrev no_v6 : Bytes → Option Bytes
no_v6 text = none

abbrev log_in : LoginRequest
log_in = record {
  client_ip = codes "8.8.8.8";
  body = some (record { username = codes "admin"; password = codes "secret" });
  saves = true;
}

-- The administrator gets in.
admin_session :
    post_login users is_secret no_v6 [] (codes "-salt") log_in (admin ∷ []) none
    ≡ record { written = answer 200 (codes "Logged in"); session = some (uid 1) }
unfolding post_login verify_password equal parse_ip split
admin_session = refl

post_login-Decided_example :
    Decided users is_secret no_v6 []
      (codes "-salt")
      log_in
      (admin ∷ [])
      none
      (post_login users is_secret no_v6 [] (codes "-salt") log_in (admin ∷ []) none)
post_login-Decided_example =
    post_login-Decided users is_secret no_v6 [] (codes "-salt") log_in (admin ∷ []) none

-- Without the dependencies a session whose user is gone is let on.
without_deps : require_login users false (some (uid 1)) [] ≡ true
unfolding require_login
without_deps = refl

require_login-HoldsUser_example :
    HoldsUser users (some (uid 1)) (admin ∷ []) ⊎ ((true ≡ false) × HoldsId users (some (uid 1)))
unfolding require_login
require_login-HoldsUser_example =
    require_login-HoldsUser users true (some (uid 1)) (admin ∷ []) refl

abbrev asked_service : Outside
asked_service = record {
  api_key = codes "key";
  hash = λ password. password;
  sha1_hex = λ password. codes "5BAA61E4C9B93F3F0682250B6CF8331B7EE68FD8";
  ask = λ prefix. gave (codes "1E4C9B93F3F0682250B6CF8331B7EE68FD8:3");
  other_base = λ text. none;
}

abbrev registration : UserRegistration
registration = record { username = codes "operator"; password = codes "password" }

one_admin : AreUnique (admin ∷ [])
one_admin = (λ n. ground arith, (omega arith, tt))

accounts-AreUnique_example :
    AreUnique (table_of (post_user users asked_service (some registration) (admin ∷ [])))
    × AreUnique
        (table_of (patch_user users asked_service (codes "1") (some registration) (admin ∷ [])))
    × AreUnique (table_of (delete_user users asked_service (codes "1") (admin ∷ [])))
accounts-AreUnique_example =
    accounts-AreUnique users asked_service (admin ∷ []) (codes "1") (some registration) one_admin

-- A password that the service knows is refused.
pwned_password :
    post_user users asked_service (some registration) (admin ∷ [])
    ≡ wrote
        (said 400 (codes "Password has been reported in a data breach. Please use another one")
          ∷ [])
        (admin ∷ [])
unfolding post_user username_fault check_pwned equal split parse_digits parse_int has_prefix
pwned_password = refl

-- `GETUser` writes an empty user after its error.
missing_user :
    get_user users asked_service (codes "2") (admin ∷ [])
    ≡ wrote (said 400 (codes "User does not exist") ∷ shown no_user ∷ []) (admin ∷ [])
unfolding get_user find_user_by_id parse_uint
missing_user = refl
