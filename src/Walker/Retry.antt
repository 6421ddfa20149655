-- ===== src/Walker/Retry.antt =====
-- internal/walker/http/retry.go: `Client.Get`, which asks a node again when it fails to answer.
-- What the network answers to the n-th request, and the reading of a body, are parameters.
pub mod First
use mesh_manager.Common.{
  ℕ, zero, suc, ◌+◌, Bool, true, false, List, Option, none, some, ◌==◌, if◌then◌else◌, Bytes,
}

-- An answer to one request: an error, or a status with a body.
pub data Attempt : Type 0 where
  no_answer : Attempt
  responded : ℕ → Bytes → Attempt

-- How `Get` ends: with one of its errors, with the response, or in a panic, when the body of no
-- response is read.
pub data Got (A : Type 0) : Type 0 where
  failed_to_get : Got A
  bad_status : Got A
  not_decoded : Got A
  response : A → Got A
  broken : Got A

module _ {A : Type 0} (decode : Bytes → Option A) (ask : ℕ → Attempt) where
  abbrev pub read_body : Option A → Got A
  read_body none = not_decoded
  read_body (some a) = response a

  -- One round of the loop, before others or as the last one.
  abbrev pub round : Bool → Got A → Attempt → Got A
  round last later no_answer = if last then failed_to_get else later
  round last later (responded status body) =
      if status == 200 then read_body (decode body) else if last then bad_status else later

  -- The rounds that are left, from the n-th request on.
  unfoldable pub attempts : ℕ → ℕ → Got A
  attempts zero n = broken
  attempts (suc left) n = let later = attempts left (n + 1) in round (left == 0) later (ask n)

  -- `range c.retries` over a number that is not positive has no round.
  unfoldable pub get : ℕ → Got A
  get retries = attempts retries 0
