-- ===== src/Users/Accounts.antt =====
-- internal/server/api/controllers/v1/users.go and internal/server/api/apimodels/user.go: the
-- handlers of users. The hash of a password, its SHA-1 in capital hex digits, the answer of the
-- service of pwned passwords, and the reading of a count that is no plain decimal are parameters.
pub mod Rows
pub mod Unique
use mesh_manager.Common.{
  ℕ, suc, ◌+◌, ◌≡◌, Bool, true, false, not, ◌&&◌, ◌||◌, List, [], ◌∷◌, ◌++◌, Option, none, some,
  Bytes, codes, split, length, take, drop, equal, has_prefix, leb, ltb, ◌==◌, if◌then◌else◌, ℤ, pos,
  negsuc, parse_int, parse_uint, parse_digits,
}
use mesh_manager.Models.{First, found, not_found, failed}
use mesh_manager.Users.{
  User, no_user, UserStore, found_user, find_user_by_id, user_id_exists, list_users, count_users,
}
use mesh_manager.Users.Login.{Stored, uid, other}

-- What a handler writes: a status with a message, a user, or a list with its total.
pub data Written : Type 0 where
  said : ℕ → Bytes → Written
  shown : User → Written
  listed : ℕ → List User → Written

-- The writes of a handler and the table after it, or a panic.
pub data Outcome (Db : Type 0) : Type 0 where
  panicked : Db → Outcome Db
  wrote : List Written → Db → Outcome Db

abbrev pub table_of : {Db : Type 0} → Outcome Db → Db
table_of (panicked d) = d
table_of (wrote ws d) = d

pub record UserRegistration : Type 0 where
  pub username : Bytes
  pub password : Bytes

abbrev pub is_username_char : ℕ → Bool
is_username_char c =
    (leb b'a' c && leb c b'z')
    || ((leb b'A' c && leb c b'Z')
        || ((leb b'0' c && leb c b'9') || (c == b'_' || (c == b'-' || c == b'.'))))

abbrev pub every : (ℕ → Bool) → Bytes → Bool
every p [] = true
every p (c ∷ cs) = p c && every p cs

-- `IsValidUsername`: none, or what is wrong. A name of three bytes or more is not empty.
unfoldable pub username_fault : Bytes → Option Bytes
username_fault name =
    if ltb (length name) 3
    then some (codes "Username must be at least 3 characters")
    else if ltb 20 (length name)
    then some (codes "Username must be less than 20 characters")
    else if every is_username_char name
    then none
    else some (codes "Username must be alphanumeric, _, -, or .")

-- The count of pwned passwords, or why there is none.
pub data Pwned : Type 0 where
  broken bad_count : Pwned
  counted : ℤ → Pwned

-- `ParseInt(s, 0, 32)`: a row of digits that does not begin with 0 is a decimal.
abbrev pub parse_count : (Bytes → Option ℤ) → Bytes → Option ℤ
parse_count other_base text = elim (parse_digits text) [
  | none ↦ other_base text
  | some n ↦ if has_prefix text (codes "0") then other_base text else parse_int 2147483647 text
]

abbrev pub next_count : Bool → Option ℤ → ℤ → Option ℤ
next_count same none old = none
next_count same (some n) old = if same then some n else some old

-- The lines "SUFFIX:COUNT"; the last with the suffix counts, and one without a colon panics.
unfoldable pub pwned_count : (Bytes → Option ℤ) → Bytes → List Bytes → ℤ → Pwned
pwned_count other_base suffix [] result = counted result
pwned_count other_base suffix (line ∷ lines) result = elim (split b':' line) [
  | [] ↦ broken
  | name ∷ rest ↦ elim rest [
    | [] ↦ broken
    | number ∷ more ↦ elim (next_count (equal name suffix) (parse_count other_base number) result) [
      | none ↦ bad_count
      | some n ↦ pwned_count other_base suffix lines n
    ]
  ]
]

-- `strings.Split(s, "\r\n")`.
unfoldable pub split_lines : Bytes → List Bytes
split_lines [] = [] ∷ []
split_lines (c ∷ []) = (c ∷ []) ∷ []
split_lines (c ∷ d ∷ cs) =
    let rest = split_lines (d ∷ cs) in
    let after = split_lines cs in
    if c == 13 && d == 10
    then [] ∷ after
    else (elim rest [ [] ↦ (c ∷ []) ∷ [] | p ∷ ps ↦ (c ∷ p) ∷ ps ])

-- What the service answers for a prefix: a text, or the text of an error.
pub data Answered : Type 0 where
  gave : Bytes → Answered
  refused : Bytes → Answered

pub record Outside : Type 0 where
  pub api_key : Bytes
  pub hash : Bytes → Bytes
  pub sha1_hex : Bytes → Bytes
  pub ask : Bytes → Answered
  pub other_base : Bytes → Option ℤ

abbrev pub is_positive : ℤ → Bool
is_positive (pos n) = ltb 0 n
is_positive (negsuc n) = false

-- The reply to a password that is not taken, a panic, or none.
pub data Verdict : Type 0 where
  fine panics : Verdict
  reply : ℕ → Bytes → Verdict

abbrev pub verdict_of : Pwned → Verdict
verdict_of broken = panics
verdict_of bad_count = reply 500 (codes "Error parsing pwned password count")
verdict_of (counted n) =
    if is_positive n
    then reply 400 (codes "Password has been reported in a data breach. Please use another one")
    else fine

abbrev pub verdict_on : (Bytes → Option ℤ) → Bytes → Answered → Verdict
verdict_on other_base suffix (refused why) =
    if has_prefix why (codes "Too many requests")
    then reply 429 (codes "Too many requests. Please try again in one minute")
    else reply 500 (codes "Error getting pwned passwords")
verdict_on other_base suffix (gave text) =
    verdict_of (pwned_count other_base suffix (split_lines text) (pos 0))

unfoldable pub check_pwned : Outside → Bytes → Verdict
unfolding pwned_count split_lines
check_pwned w password =
    if equal w.api_key []
    then fine
    else verdict_on w.other_base (take 35 (drop 5 (w.sha1_hex password)))
        (w.ask (take 5 (w.sha1_hex password)))

module _ (s : UserStore) (w : Outside) where
  open s use {Db, query, create, save, remove}

  abbrev pub say : ℕ → Bytes → Db → Outcome Db
  say status text d = wrote (said status text ∷ []) d

  -- `Find` by a name, which must give no row.
  abbrev pub when_free : Option (List User) → Bytes → Db → Outcome Db → Outcome Db
  when_free none failure d next = say 500 failure d
  when_free (some rows) failure d next =
      if not ((found_user (some rows)).id == 0)
      then say 400 (codes "Username is already taken") d
      else next

  abbrev pub after_create : Db → Option (Db × User) → Outcome Db
  after_create d none = say 500 (codes "Error creating user") d
  after_create d (some (d', u)) = say 200 (codes "User created") d'

  abbrev pub create_user : UserRegistration → Db → Outcome Db
  create_user json d =
      after_create d
        (create d (record no_user { username = json.username; password = w.hash json.password }))

  abbrev pub when_fine : Verdict → UserRegistration → Db → Outcome Db
  when_fine fine json d = create_user json d
  when_fine panics json d = panicked d
  when_fine (reply status text) json d = say status text d

  abbrev pub register : Option Bytes → UserRegistration → Db → Outcome Db
  register (some fault) json d = say 400 fault d
  register none json d =
      if equal json.password []
      then say 400 (codes "Password cannot be blank") d
      else when_free (query d (λ u. equal u.username json.username)) (codes "Error getting user") d
          (when_fine (check_pwned w json.password) json d)

  unfoldable pub post_user : Option UserRegistration → Db → Outcome Db
  post_user none d = say 400 (codes "JSON data is invalid") d
  post_user (some json) d = register (username_fault json.username) json d

  -- A user that is not found is written after the error.
  abbrev pub user_or_error : First User → Db → Outcome Db
  user_or_error (found u) d = wrote (shown u ∷ []) d
  user_or_error not_found d = wrote (said 400 (codes "User does not exist") ∷ shown no_user ∷ []) d
  user_or_error failed d = wrote (said 400 (codes "User does not exist") ∷ shown no_user ∷ []) d

  abbrev pub parse_user_id : Bytes → Option ℕ
  parse_user_id text = parse_uint 4294967295 text

  unfoldable pub get_user : Bytes → Db → Outcome Db
  get_user id d = elim (parse_user_id id) [
    | none ↦ say 400 (codes "Invalid User ID") d
    | some i ↦ user_or_error (find_user_by_id s d i) d
  ]

  -- `UserPatch`: an empty field is left as it is.
  abbrev pub with_password : Bytes → User → User
  with_password password u =
      if equal password [] then u else record u { password = w.hash password }

  abbrev pub after_save : Db → Option Db → Outcome Db
  after_save d none = say 500 (codes "Error updating user") d
  after_save d (some d') = say 200 (codes "User updated") d'

  abbrev pub save_user : User → Db → Outcome Db
  save_user u d = after_save d (save d u)

  abbrev pub patch_found : UserRegistration → First User → Db → Outcome Db
  patch_found json not_found d = say 400 (codes "User does not exist") d
  patch_found json failed d = say 400 (codes "User does not exist") d
  patch_found json (found u) d =
      if equal json.username []
      then save_user (with_password json.password u) d
      else when_free (query d (λ v. equal v.username json.username)) (codes "Error finding user") d
          (save_user (with_password json.password (record u { username = json.username })) d)

  abbrev pub patch_id : Option ℕ → Option UserRegistration → Db → Outcome Db
  patch_id none json d = say 400 (codes "Invalid User ID") d
  patch_id (some i) none d = say 400 (codes "JSON data is invalid") d
  patch_id (some i) (some json) d = patch_found json (find_user_by_id s d i) d

  unfoldable pub patch_user : Bytes → Option UserRegistration → Db → Outcome Db
  patch_user id json d = patch_id (parse_user_id id) json d

  abbrev pub after_remove : Db → Option Db → Outcome Db
  after_remove d none = say 500 (codes "Error deleting user") d
  after_remove d (some d') = say 200 (codes "User deleted") d'

  abbrev pub remove_existing : ℕ → Option Bool → Db → Outcome Db
  remove_existing i none d = say 500 (codes "Error checking if user exists") d
  remove_existing i (some false) d = say 400 (codes "User does not exist") d
  remove_existing i (some true) d = after_remove d (remove d i)

  abbrev pub remove_id : Option ℕ → Db → Outcome Db
  remove_id none d = say 400 (codes "Invalid user ID") d
  remove_id (some i) d = remove_existing i (user_id_exists s d i) d

  unfoldable pub delete_user : Bytes → Db → Outcome Db
  delete_user id d = remove_id (parse_user_id id) d

  abbrev pub self_of : First User → Db → Outcome Db
  self_of (found u) d = wrote (shown u ∷ []) d
  self_of not_found d = say 500 (codes "Error finding user") d
  self_of failed d = say 500 (codes "Error finding user") d

  unfoldable pub get_user_self : Option Stored → Db → Outcome Db
  get_user_self none d = say 401 (codes "Authentication failed") d
  get_user_self (some other) d = say 500 (codes "Try again later") d
  get_user_self (some (uid i)) d = self_of (find_user_by_id s d i) d

  -- The page of the users comes from the handle that the middleware has limited.
  abbrev pub list_of : Option (List User) → Option ℕ → Db → Outcome Db
  list_of none total d = say 500 (codes "Error getting users") d
  list_of (some users) none d = say 500 (codes "Error getting user count") d
  list_of (some users) (some total) d = wrote (listed total users ∷ []) d

  unfoldable pub get_users : Option (List User) → Db → Outcome Db
  get_users page d = list_of page (count_users s d) d
