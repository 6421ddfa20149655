-- ===== src/Api/Checks.antt =====
-- internal/server/api/controllers/v1/tunnels.go: the checks, which leave the site as it was.
use mesh_manager.Common.{
  ℕ, ◌≡◌, ◌≢◌, refl, Bool, true, false, Option, none, some, if◌then◌else◌, Bytes, arith, Result, ok,
  err, panic, List, [], ◌∷◌, split, length, take, drop, ◌==◌, not,
}
use mesh_manager.Api.{
  Outside, Message, Handled, next, replied, panicked, Handler, ◌>>=◌, skip, refuse, require,
  check_address, check_server_address, check_parts,
}
use mesh_manager.Api.Create.{
  CreateTunnel, check_hostname, from, move_port, server_parts, check_keys,
}

-- However it ends, the site is as it was, and it does not end in `200 OK`.
abbrev pub Checks : {S A : Type 0} → S → Handled S A → Type 0
Checks s (next s' a) = s' ≡ s
Checks s (replied s' r) = (s' ≡ s) × (r.status ≢ 200)
Checks s (panicked s') = s' ≡ s

module _ {S : Type 0} where
  pub Checks-after :
      {A B : Type 0} (h : Handled S A) (f : A → Handler S B) (s : S)
      → Checks s h
      → ((a : A) → Checks s (f a s))
      → Checks s
          (elim h [ next s' a ↦ f a s' | replied s' r ↦ replied s' r | panicked s' ↦ panicked s' ])
  Checks-after (next s' a) f s p q = rw p (q a)
  Checks-after (replied s' r) f s p q = p
  Checks-after (panicked s') f s p q = p

  pub Checks->>= :
      {A B : Type 0} (m : Handler S A) (f : A → Handler S B) (s : S)
      → Checks s (m s)
      → ((a : A) → Checks s (f a s))
      → Checks s ((m >>= f) s)
  Checks->>= m f s p q = Checks-after (m s) f s p q

  pub Checks-refuse : (fails : Bool) (m : Message) (s : S) → Checks s (refuse fails m s)
  Checks-refuse fails m s = ground arith

  pub Checks-when :
      (b : Bool) (m : Handler S (Unit {0})) (s : S)
      → Checks s (m s)
      → Checks s ((if b then m else skip) s)
  Checks-when true m s h = h
  Checks-when false m s h = refl

  pub Checks-require :
      {A : Type 0} (n : ℕ) (o : Option A) (m : Message) (s : S)
      → n ≢ 200
      → Checks s (require n o m s)
  Checks-require n none m s not_ok = (refl, not_ok)
  Checks-require n (some a) m s not_ok = refl

  pub Checks-from : {E A : Type 0} (r : Result E A) (m : Message) (s : S) → Checks s (from r m s)
  Checks-from (ok a) m s = refl
  Checks-from (err e) m s = (refl, omega arith)
  Checks-from panic m s = refl

  pub Checks-check_hostname : (o : Option Message) (s : S) → Checks s (check_hostname o s)
  Checks-check_hostname none s = refl
  Checks-check_hostname (some m) s = (refl, omega arith)

  pub Checks-check_address :
      (w : Outside) (text : Bytes) (s : S) → Checks s (check_address w text s)
  unfolding check_address
  Checks-check_address w text s = ground arith

  pub Checks-check_parts :
      (w : Outside) (parts : List Bytes) (s : S) → Checks s (check_parts w parts s)
  Checks-check_parts w [] s = refl
  Checks-check_parts w (host ∷ []) s = ground arith
  Checks-check_parts w (host ∷ port ∷ []) s = ground arith
  Checks-check_parts w (host ∷ port ∷ more ∷ rest) s = (refl, omega arith)

  pub Checks-check_server_address :
      (w : Outside) (hostname : Bytes) (s : S) → Checks s (check_server_address w hostname s)
  unfolding check_server_address
  Checks-check_server_address w hostname s = Checks-check_parts w (split b':' hostname) s

  pub Checks-move_port :
      (json : CreateTunnel) (parts : List Bytes) (s : S) → Checks s (move_port json parts s)
  Checks-move_port json [] s = (refl, omega arith)
  Checks-move_port json (a ∷ []) s = (refl, omega arith)
  Checks-move_port json (a ∷ b ∷ []) s = refl
  Checks-move_port json (a ∷ b ∷ c ∷ rest) s = (refl, omega arith)

  pub Checks-server_parts : (json : CreateTunnel) (s : S) → Checks s (server_parts json s)
  unfolding server_parts
  Checks-server_parts json s = ground (arith, Checks-move_port json (split b':' json.ip) s)

  pub Checks-check_keys :
      (w : Outside) (password : Bytes) (s : S) → Checks s (check_keys w password s)
  unfolding check_keys
  Checks-check_keys w password s =
      Checks->>= (refuse (not (length password == 132)) _) _ s (Checks-refuse _ _ s) λ _.
        Checks->>= (refuse (not (w.is_key (take 44 password))) _) _ s (Checks-refuse _ _ s) λ _.
          Checks->>= (refuse (not (w.is_key (drop 44 (take 88 password)))) _) _ s
            (Checks-refuse _ _ s) λ _. Checks-refuse _ _ s
