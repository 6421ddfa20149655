-- ===== src/Walker/Retry/First.antt =====
-- internal/walker/http/retry.go: the first good answer within the retries is the one that is read.
use mesh_manager.Common.{
  ℕ, zero, suc, ◌+◌, ◌<◌, ◌≡◌, ◌∙◌, refl, Bool, true, false, Option, ◌==◌, [], subst, sym,
  if◌then◌else◌, Bytes, arith,
}
use mesh_manager.Walker.Retry.{
  Attempt, no_answer, responded, Got, failed_to_get, bad_status, broken, read_body, round, attempts,
  get,
}

-- A status of 200.
abbrev pub is_good : Attempt → Bool
is_good no_answer = false
is_good (responded status body) = status == 200

abbrev pub body_of : Attempt → Bytes
body_of no_answer = []
body_of (responded status body) = body

abbrev pub error_of : {A : Type 0} → Attempt → Got A
error_of no_answer = failed_to_get
error_of (responded status body) = bad_status

module _ {A : Type 0} (decode : Bytes → Option A) (ask : ℕ → Attempt) where
  good_round :
      (last : Bool) (later : Got A) (a : Attempt)
      → is_good a ≡ true
      → round decode ask last later a ≡ read_body decode ask (decode (body_of a))
  good_round last later no_answer h = cc
  good_round last later (responded status body) h = rw h refl

  bad_round :
      (last : Bool) (later : Got A) (a : Attempt)
      → is_good a ≡ false
      → round decode ask last later a ≡ (if last then error_of a else later)
  bad_round last later no_answer h = refl
  bad_round last later (responded status body) h = rw h refl

  attempts-good :
      (left n i : ℕ)
      → i < left
      → is_good (ask (n + i)) ≡ true
      → ((j : ℕ) → j < i → is_good (ask (n + j)) ≡ false)
      → attempts decode ask left n ≡ read_body decode ask (decode (body_of (ask (n + i))))
  unfolding attempts
  attempts-good zero n i below good bad = absurd (omega arith)
  attempts-good (suc left) n zero below good bad =
      let here : n + 0 ≡ n = omega arith in
      subst
        (λ m. attempts decode ask (suc left) n ≡ read_body decode ask (decode (body_of (ask m))))
        (sym here)
        (good_round (left == 0) (attempts decode ask left (n + 1)) (ask n)
          (subst (λ m. is_good (ask m) ≡ true) here good))
  attempts-good (suc left) n (suc i) below good bad =
      let here : n + 0 ≡ n = omega arith in
      let there : n + suc i ≡ (n + 1) + i = omega arith in
      let more : (left == 0) ≡ false = ground arith in
      let bad_now = subst (λ m. is_good (ask m) ≡ false) here (bad 0 (omega arith)) in
      let rest =
        attempts-good left (n + 1) i (omega arith) (subst (λ m. is_good (ask m) ≡ true) there good)
          (λ j h. subst (λ m. is_good (ask m) ≡ false) (omega arith) (bad (suc j) (omega arith))) in
      bad_round (left == 0) (attempts decode ask left (n + 1)) (ask n) bad_now
      ∙ rw more (
          subst
            (λ m.
              attempts decode ask left (n + 1) ≡ read_body decode ask (decode (body_of (ask m))))
            (sym there) rest)

  attempts-bad :
      (left n : ℕ)
      → ((j : ℕ) → j < suc left → is_good (ask (n + j)) ≡ false)
      → attempts decode ask (suc left) n ≡ error_of (ask (n + left))
  unfolding attempts
  attempts-bad zero n bad =
      let here : n + 0 ≡ n = omega arith in
      subst (λ m. attempts decode ask 1 n ≡ error_of (ask m)) (sym here)
        (bad_round true broken (ask n)
          (subst (λ m. is_good (ask m) ≡ false) here (bad 0 (omega arith))))
  attempts-bad (suc left) n bad =
      let here : n + 0 ≡ n = omega arith in
      let there : n + suc left ≡ (n + 1) + left = omega arith in
      let more : (suc left == 0) ≡ false = ground arith in
      bad_round (suc left == 0) (attempts decode ask (suc left) (n + 1)) (ask n)
        (subst (λ m. is_good (ask m) ≡ false) here (bad 0 (omega arith)))
      ∙ rw more (
          subst (λ m. attempts decode ask (suc left) (n + 1) ≡ error_of (ask m)) (sym there)
            (attempts-bad left (n + 1) (λ j h.
              subst (λ m. is_good (ask m) ≡ false) (omega arith) (bad (suc j) (omega arith)))))

  -- When the i-th answer is the first with the status 200 and is within the retries, `Get` gives
  -- what is decoded of its body, or the error that it cannot be decoded.
  pub get-first :
      (retries i : ℕ)
      → i < retries
      → is_good (ask i) ≡ true
      → ((j : ℕ) → j < i → is_good (ask j) ≡ false)
      → get decode ask retries ≡ read_body decode ask (decode (body_of (ask i)))
  unfolding get
  get-first retries i below good bad =
      let from_0 : (j : ℕ) → 0 + j ≡ j = λ j. omega arith in
      subst (λ m. attempts decode ask retries 0 ≡ read_body decode ask (decode (body_of (ask m))))
        (from_0 i)
        (attempts-good retries 0 i below (subst (λ m. is_good (ask m) ≡ true) (sym (from_0 i)) good)
          (λ j h. subst (λ m. is_good (ask m) ≡ false) (sym (from_0 j)) (bad j h)))

  -- When no answer has the status 200, `Get` gives the error of the last one.
  pub get-exhausted :
      (left : ℕ)
      → ((j : ℕ) → j < suc left → is_good (ask j) ≡ false)
      → get decode ask (suc left) ≡ error_of (ask left)
  unfolding get
  get-exhausted left bad =
      let from_0 : (j : ℕ) → 0 + j ≡ j = λ j. omega arith in
      subst (λ m. attempts decode ask (suc left) 0 ≡ error_of (ask m)) (from_0 left)
        (attempts-bad left 0
          (λ j h. subst (λ m. is_good (ask m) ≡ false) (sym (from_0 j)) (bad j h)))
