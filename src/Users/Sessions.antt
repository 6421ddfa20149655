-- ===== src/Users/Sessions.antt =====
-- internal/server/api/controllers/v1/auth.go and internal/server/api/middleware/auth.go: who gets a
-- session, and whom a session lets on.
use mesh_manager.Common.{
  ℕ, ◌≤◌, ◌≡◌, ◌≢◌, refl, ap, sym, ◌⊎◌, inl, inr, Bool, true, false, List, [], ◌∷◌, ◌++◌, Option,
  none, some, Bytes, codes, split, length, equal, equal_iff, ◌==◌, ==→≡, if◌then◌else◌, select, All,
  arith, subst,
}
use mesh_manager.Models.Counts.{select_head}
use mesh_manager.Users.{User, UserStore, found_user}
use mesh_manager.Users.Login.{
  Stored, uid, other, Answer, answer, AuthLogin, LoginRequest, Login, verify_password,
  when_verified, try_user, try_login, is_unencrypted, post_login, require_login,
}

-- No answer says that it went well.
abbrev pub Refused : Login → Option Stored → Type 0
Refused res old = (res.session ≡ old) × All (λ (a : Answer). 400 ≤ a.status) res.written

either_branch :
    {A : Type 0} (P : A → Type 0) (b : Bool) (x y : A)
    → (b ≡ true → P x)
    → (b ≡ false → P y)
    → P (if b then x else y)
either_branch P true x y f g = f refl
either_branch P false x y f g = g refl

module _ (s : UserStore) (matches : Bytes → List Bytes → Option Bool)
    (parse_v6 : Bytes → Option Bytes) (trusted_proxies : List Bytes) (salt : Bytes) where
  open s use {Db, query, rows, query-rows}

  -- The first row with the name has a hash of six fields that the password matches.
  abbrev pub Verified : AuthLogin → Db → User → Type 0
  Verified json d u =
      (us : List User) × (select (λ v. equal v.username json.username) (rows d) ≡ u ∷ us)
      × (u.username ≡ json.username)
      × (length (split b'$' u.password) ≡ 6)
      × (matches (json.password ++ salt) (split b'$' u.password) ≡ some true)

  abbrev pub Opened : AuthLogin → Db → Login → Type 0
  Opened json d res =
      (u : User) × (res.session ≡ some (uid u.id))
      × (res.written ≡ answer 200 (codes "Logged in"))
      × Verified json d u

  abbrev pub LoggedIn : LoginRequest → Db → Login → Type 0
  LoggedIn r d res =
      (json : AuthLogin) × (r.body ≡ some json)
      × (r.saves ≡ true)
      × (is_unencrypted s matches parse_v6 trusted_proxies salt r ≡ false)
      × (json.password ≢ [])
      × Opened json d res

  verify_password-fields :
      (password hash : Bytes)
      → verify_password matches password hash salt ≡ some true
      → (length (split b'$' hash) ≡ 6) × (matches (password ++ salt) (split b'$' hash) ≡ some true)
  unfolding verify_password
  verify_password-fields password hash h = ground arith

  not_empty : (xs : Bytes) → equal xs [] ≡ false → xs ≢ []
  unfolding equal
  not_empty xs h e = cc

  no_hash : (password : Bytes) → verify_password matches password [] salt ≢ some true
  unfolding verify_password split
  no_hash password h = cc

  user-Verified :
      (json : AuthLogin) (d : Db) (found_ : Option (List User))
      → query d (λ v. equal v.username json.username) ≡ found_
      → verify_password matches json.password (found_user found_).password salt ≡ some true
      → Verified json d (found_user found_)
  user-Verified json d none e h = absurd (no_hash json.password h)
  user-Verified json d (some []) e h = absurd (no_hash json.password h)
  user-Verified json d (some (u ∷ us)) e h =
      let named = sym (query-rows d _ (u ∷ us) e) in
      let fields = verify_password-fields json.password u.password h in
      (
        us,
        named,
        (equal_iff u.username json.username).0 (select_head _ (rows d) u us named),
        fields.0,
        fields.1,
      )

  when_verified-Opened :
      (json : AuthLogin) (d : Db) (u : User) (v : Option Bool) (saves : Bool) (old : Option Stored)
      → (v ≡ some true → Verified json d u)
      → Refused (when_verified v saves u.id old) old
        ⊎ ((saves ≡ true) × Opened json d (when_verified v saves u.id old))
  when_verified-Opened json d u none saves old h = inl (refl, (omega arith, tt))
  when_verified-Opened json d u (some false) saves old h = inl (refl, (omega arith, tt))
  when_verified-Opened json d u (some true) false old h = inl (refl, (omega arith, tt))
  when_verified-Opened json d u (some true) true old h = inr (refl, (u, refl, refl, h refl))

  abbrev pub Decided : LoginRequest → Db → Option Stored → Login → Type 0
  Decided r d old res = Refused res old ⊎ LoggedIn r d res

  refused :
      (r : LoginRequest) (d : Db) (old : Option Stored) (status : ℕ) (text : Bytes)
      → 400 ≤ status
      → Decided r d old (record { written = answer status text; session = old })
  refused r d old status text h = inl (refl, (h, tt))

  try_user-Decided :
      (r : LoginRequest) (json : AuthLogin) (d : Db) (old : Option Stored)
      → r.body ≡ some json
      → is_unencrypted s matches parse_v6 trusted_proxies salt r ≡ false
      → equal json.password [] ≡ false
      → Decided r d old (
          try_user s matches parse_v6 trusted_proxies salt json r.saves
            (query d (λ u. equal u.username json.username))
            old)
  try_user-Decided r json d old b e p =
      let rows_found = query d (λ u. equal u.username json.username) in
      elim (when_verified-Opened json d (found_user rows_found) _ r.saves old
        (user-Verified json d rows_found refl)) [
          | inl closed ↦ inl closed
          | inr (saved, opened) ↦ inr (json, b, saved, e, not_empty json.password p, opened)
        ]

  try_login-Decided :
      (r : LoginRequest) (body : Option AuthLogin) (d : Db) (old : Option Stored)
      → r.body ≡ body
      → is_unencrypted s matches parse_v6 trusted_proxies salt r ≡ false
      → Decided r d old (try_login s matches parse_v6 trusted_proxies salt r body d old)
  try_login-Decided r none d old b e = inl (refl, (omega arith, (omega arith, tt)))
  try_login-Decided r (some json) d old b e =
      either_branch (Decided r d old) (equal json.username []) _ _
        (λ u. refused r d old 400 _ (omega arith))
        (λ u.
          either_branch (Decided r d old) (equal json.password []) _ _
            (λ p. refused r d old 400 _ (omega arith)) (try_user-Decided r json d old b e))

  -- A log-in either leaves the session as it was, and every status it writes is at least 400, or
  -- writes "Logged in" with 200 and puts a user's id in the session. In the second case the request
  -- was not an unencrypted one from the mesh, its password is not empty, the user is the first row
  -- with its name, and its password verifies against that row's hash, which has six fields. So no
  -- one logs in under a name that no row has, although the error of the query is not read.
  pub post_login-Decided :
      (r : LoginRequest) (d : Db) (old : Option Stored)
      → Decided r d old (post_login s matches parse_v6 trusted_proxies salt r d old)
  unfolding post_login
  post_login-Decided r d old =
      either_branch (Decided r d old) (is_unencrypted s matches parse_v6 trusted_proxies salt r) _ _
        (λ e. refused r d old 451 _ (omega arith)) (try_login-Decided r r.body d old refl)

module _ (s : UserStore) where
  open s use {Db, query, rows, query-rows}

  -- The session holds the id of a row, which is in the range that the middleware takes.
  abbrev pub HoldsUser : Option Stored → Db → Type 0
  HoldsUser session d =
      (u : User) × (us : List User) × (session ≡ some (uid u.id))
      × (u.id ≤ 2147483647)
      × (u.has_created_at ≡ true)
      × (select (λ v. v.id == u.id) (rows d) ≡ u ∷ us)

  created_row :
      (d : Db) (i : ℕ) (found_ : Option (List User))
      → i ≤ 2147483647
      → query d (λ v. v.id == i) ≡ found_
      → (found_user found_).has_created_at ≡ true
      → HoldsUser (some (uid i)) d
  created_row d i none h e c = cc
  created_row d i (some []) h e c = cc
  created_row d i (some (u ∷ us)) h e c =
      let named : select (λ v. v.id == i) (rows d) ≡ u ∷ us = sym (query-rows d _ (u ∷ us) e) in
      let same : u.id ≡ i = ==→≡ u.id i (select_head (λ v. v.id == i) (rows d) u us named) in
      (
        u,
        us,
        ap (λ j. some (uid j)) (sym same),
        omega (arith, same, h),
        c,
        subst (λ j. select (λ v. v.id == j) (rows d) ≡ u ∷ us) (sym same) named,
      )

  -- The session holds an id that is in the range, of which nothing else is known.
  abbrev pub HoldsId : Option Stored → Type 0
  HoldsId session = (i : ℕ) × (session ≡ some (uid i)) × (i ≤ 2147483647)

  -- A request goes past the middleware only with a session that holds the id of a row, of at most
  -- 2^31 - 1, whose date of creation is set; or when the context lacks the dependencies, and then
  -- the session holds an id of at most 2^31 - 1, which need not be that of a row.
  pub require_login-HoldsUser :
      (has_deps : Bool) (session : Option Stored) (d : Db)
      → require_login s has_deps session d ≡ true
      → HoldsUser session d ⊎ ((has_deps ≡ false) × HoldsId session)
  unfolding require_login
  require_login-HoldsUser has_deps none d h = cc
  require_login-HoldsUser has_deps (some other) d h = cc
  require_login-HoldsUser false (some (uid i)) d h = inr (refl, (i, refl, ground (arith, h)))
  require_login-HoldsUser true (some (uid i)) d h =
      inl (created_row d i (query d (λ v. v.id == i)) (ground (arith, h)) refl (ground (arith, h)))
