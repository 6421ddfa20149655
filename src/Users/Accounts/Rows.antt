-- ===== src/Users/Accounts/Rows.antt =====
-- internal/db/models/user.go: tables in which no two users have one name.
use mesh_manager.Common.{
  ℕ, ◌+◌, ◌≤◌, ◌<◌, ◌≡◌, ap, sym, ◌∙◌, subst, inl, inr, Bool, true, List, [], ◌∷◌, ◌++◌, some,
  Bytes, equal, equal_iff, ◌==◌, ==→≡, length, select, All, All-append, arith, Bool-cases,
}
use mesh_manager.Store.{put, drop_key}
use mesh_manager.Models.Counts.{select_head}
use mesh_manager.Users.{User, user_keyed, found_user}

abbrev pub count_name : Bytes → List User → ℕ
count_name n us = length (select (λ u. equal u.username n) us)

-- No two users have one name, and no id is 0.
abbrev pub AreUnique : List User → Type 0
AreUnique us = ((n : Bytes) → count_name n us ≤ 1) × All (λ (u : User). 0 < u.id) us

count_name-append :
    (n : Bytes) (us : List User) (u : User)
    → count_name n (us ++ u ∷ []) ≡ count_name n us + count_name n (u ∷ [])
count_name-append n [] u = omega arith
count_name-append n (v ∷ us) u = ground (arith, count_name-append n us u)

count_name-put :
    (n : Bytes) (a : User) (us : List User)
    → count_name n (put user_keyed.key a us) ≤ count_name n us + count_name n (a ∷ [])
count_name-put n a [] = omega arith
count_name-put n a (u ∷ us) = ground (arith, count_name-put n a us)

count_name-same :
    (n : Bytes) (a x : User) (us : List User)
    → a.username ≡ x.username
    → count_name n (a ∷ us) ≡ count_name n (x ∷ us)
count_name-same n a x us e = ground (arith, ap (λ (name : Bytes). equal name n) e)

same_head : (x u : User) (us vs : List User) → x ∷ us ≡ u ∷ vs → u.username ≡ x.username
same_head x u us vs h = cc

count_name-put_same :
    (n : Bytes) (a u : User) (us vs : List User)
    → a.username ≡ u.username
    → select (λ v. v.id == a.id) us ≡ u ∷ vs
    → count_name n (put user_keyed.key a us) ≡ count_name n us
count_name-put_same n a u [] vs e h = cc
count_name-put_same n a u (x ∷ us) vs e h = elim (Bool-cases (x.id == a.id)) [
  | inl same ↦ rw same (count_name-same n a x us (e ∙ same_head x u _ vs (rw same at h)))
  | inr differs ↦ rw differs (ground (arith, count_name-put_same n a u us vs e (rw differs at h)))
]

All-put :
    (a : User) (us : List User)
    → 0 < a.id
    → All (λ (u : User). 0 < u.id) us
    → All (λ (u : User). 0 < u.id) (put user_keyed.key a us)
All-put a [] h k = (h, tt)
All-put a (u ∷ us) h (here, k) = elim (Bool-cases (u.id == a.id)) [
  | inl e ↦ rw e (h, k)
  | inr e ↦ rw e (here, All-put a us h k)
]

count_name-drop :
    (n : Bytes) (i : ℕ) (us : List User)
    → count_name n (drop_key user_keyed.key i us) ≤ count_name n us
count_name-drop n i [] = omega arith
count_name-drop n i (u ∷ us) = ground (arith, count_name-drop n i us)

All-drop_key :
    (i : ℕ) (us : List User)
    → All (λ (u : User). 0 < u.id) us
    → All (λ (u : User). 0 < u.id) (drop_key user_keyed.key i us)
All-drop_key i [] k = tt
All-drop_key i (u ∷ us) (here, k) = elim (Bool-cases (u.id == i)) [
  | inl e ↦ rw e (All-drop_key i us k)
  | inr e ↦ rw e (here, All-drop_key i us k)
]

pub All-select :
    (p : User → Bool) (us : List User)
    → All (λ (u : User). 0 < u.id) us
    → All (λ (u : User). 0 < u.id) (select p us)
All-select p [] k = tt
All-select p (u ∷ us) (here, k) = elim (Bool-cases (p u)) [
  | inl e ↦ rw e (here, All-select p us k)
  | inr e ↦ rw e (All-select p us k)
]

-- A row that is found has an id that is not 0.
pub no_row :
    (us : List User) (p : User → Bool) (rows : List User)
    → All (λ (u : User). 0 < u.id) us
    → rows ≡ select p us
    → ((found_user (some rows)).id == 0) ≡ true
    → select p us ≡ []
no_row us p [] k e z = sym e
no_row us p (u ∷ rows) k e z =
    let there = subst (All (λ (v : User). 0 < v.id)) (sym e) (All-select p us k) in
    absurd (omega (arith, there.0, ==→≡ u.id 0 z))

-- One more row with a name that was free.
one_more :
    (n : Bytes) (a : User) (us : List User)
    → ((m : Bytes) → count_name m us ≤ 1)
    → count_name a.username us ≡ 0
    → count_name n us + count_name n (a ∷ []) ≤ 1
one_more n a us k free = elim (Bool-cases (equal a.username n)) [
  | inl e ↦ rw e (
      let zero_here = subst (λ m. count_name m us ≡ 0) ((equal_iff a.username n).0 e) free in
      omega (arith, zero_here))
  | inr e ↦ rw e (omega (arith, k n))
]

pub append-AreUnique :
    (us : List User) (u : User)
    → AreUnique us
    → count_name u.username us ≡ 0
    → 0 < u.id
    → AreUnique (us ++ u ∷ [])
append-AreUnique us u k free positive = (
  λ n. omega (arith, count_name-append n us u, one_more n u us k.0 free),
  All-append (λ (v : User). 0 < v.id) us (u ∷ []) k.1 (positive, tt),
)

pub put-AreUnique :
    (us : List User) (a : User)
    → AreUnique us
    → count_name a.username us ≡ 0
    → 0 < a.id
    → AreUnique (put user_keyed.key a us)
put-AreUnique us a k free positive =
    (λ n. omega (arith, count_name-put n a us, one_more n a us k.0 free), All-put a us positive k.1)

pub put_same-AreUnique :
    (us : List User) (a u : User) (vs : List User)
    → AreUnique us
    → a.username ≡ u.username
    → select (λ v. v.id == a.id) us ≡ u ∷ vs
    → 0 < a.id
    → AreUnique (put user_keyed.key a us)
put_same-AreUnique us a u vs k e there positive =
    (λ n. omega (arith, count_name-put_same n a u us vs e there, k.0 n), All-put a us positive k.1)

pub drop_key-AreUnique :
    (us : List User) (i : ℕ) → AreUnique us → AreUnique (drop_key user_keyed.key i us)
drop_key-AreUnique us i k =
    (λ n. omega (arith, count_name-drop n i us, k.0 n), All-drop_key i us k.1)

-- The first row with an id.
pub row_with_id :
    (us : List User) (i : ℕ) (u : User) (vs : List User)
    → All (λ (u : User). 0 < u.id) us
    → u ∷ vs ≡ select (λ v. v.id == i) us
    → (select (λ v. v.id == u.id) us ≡ u ∷ vs) × (0 < u.id)
row_with_id us i u vs k e =
    let same : u.id ≡ i = ==→≡ u.id i (select_head (λ v. v.id == i) us u vs (sym e)) in
    (
      subst (λ j. select (λ v. v.id == j) us ≡ u ∷ vs) (sym same) (sym e),
      (subst (All (λ (v : User). 0 < v.id)) (sym e) (All-select (λ v. v.id == i) us k)).0,
    )
