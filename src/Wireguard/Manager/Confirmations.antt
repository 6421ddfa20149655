-- ===== src/Wireguard/Manager/Confirmations.antt =====
-- internal/wireguard/wireguard.go: a confirmation is that of one goroutine and ends one call.
use mesh_manager.Common.{ℕ, ◌+◌, ◌≡◌, ◌<◌, refl, List, [], ◌∷◌, ◌==◌, ◌&&◌, if◌then◌else◌, arith}
use mesh_manager.Models.{Tunnel, no_tunnel}
use mesh_manager.Wireguard.{Kernel, World}
use mesh_manager.Wireguard.Manager.{
  Kind, same_kind, ended_well, Process, returning, ended, confirming, Manager, Taken, here, there,
  add_call, received, Step, adds, removes, asks_to_stop, is_sent, works, fails, breaks, confirms,
  hands_on, times_out, stops, is_overheard, reads_closed, sends_closed, Steps, stays, goes_on,
  tally,
}

-- What sums up over a process that is one of some.
pub tally-Taken :
    (f : Process → ℕ) {p : Process} {ps rest : List Process}
    → Taken p ps rest
    → tally f ps ≡ f p + tally f rest
tally-Taken f here = refl
tally-Taken f (there t) = omega (arith, tally-Taken f t)

-- Whether a confirmation is of the kind and for the id.
abbrev pub hit : Kind → ℕ → Kind → Tunnel → ℕ
hit k i j t = if same_kind k j && (t.id == i) then 1 else 0

-- The confirmations of a kind and an id that a goroutine sends or that a caller holds.
abbrev pub in_transit : Kind → ℕ → Process → ℕ
in_transit k i (confirming j u) = hit k i j u
in_transit k i (returning j t u) = hit k i j u
in_transit k i _ = 0

-- The calls for an id that have returned nil after a confirmation.
abbrev pub ended_call : Kind → ℕ → Process → ℕ
ended_call k i (ended j t ended_well) = hit k i j t
ended_call k i _ = 0

abbrev token : Kind → ℕ → Process → ℕ
token k i p = in_transit k i p + ended_call k i p

tally-token :
    (k : Kind) (i : ℕ) (ps : List Process)
    → tally (token k i) ps ≡ tally (in_transit k i) ps + tally (ended_call k i) ps
tally-token k i [] = refl
tally-token k i (p ∷ ps) = omega (arith, tally-token k i ps)

token-received :
    (k : Kind) (i : ℕ) (j : Kind) (t u : Tunnel) → token k i (received j t u) ≡ hit k i j u
token-received k i j t u = ground arith

token-add_call : (k : Kind) (i : ℕ) (t : Tunnel) → token k i (add_call t) ≡ 0
token-add_call k i t = ground arith

no_hit : (k : Kind) (i : ℕ) (j : Kind) → 0 < i → hit k i j no_tunnel ≡ 0
no_hit k i j h = ground arith

module _ {K : Kernel} {w : World} where
  open K use {State}

  -- Whether a step is that of a goroutine of the kind and the id that comes to its confirmation.
  abbrev pub made : Kind → ℕ → {m u : Manager State} → Step K w m u → ℕ
  made k i (works j t rest s peers taken e) = hit k i j t
  made k i _ = 0

  abbrev pub all_made : Kind → ℕ → {m u : Manager State} → Steps K w m u → ℕ
  all_made k i stays = 0
  all_made k i (goes_on ss alive s) = all_made k i ss + made k i s

  tokens_kept :
      (k : Kind) (i : ℕ) {m u : Manager State} (s : Step K w m u)
      → 0 < i
      → tally (token k i) u.processes ≡ tally (token k i) m.processes + made k i s
  tokens_kept k i (adds t) h = omega (arith, token-add_call k i t)
  tokens_kept k i (removes t) h = omega arith
  tokens_kept k i asks_to_stop h = omega arith
  tokens_kept k i (is_sent j t rest e taken) h = omega (arith, tally-Taken (token k i) taken)
  tokens_kept k i (works j t rest s peers taken e) h = omega (arith, tally-Taken (token k i) taken)
  tokens_kept k i (fails j t rest s peers taken e) h = omega (arith, tally-Taken (token k i) taken)
  tokens_kept k i (breaks j t rest s peers taken e) h = omega arith
  tokens_kept k i (confirms j t u rest rest' e taken other) h = omega (
    arith,
    tally-Taken (token k i) taken,
    tally-Taken (token k i) other,
    token-received k i j t u,
  )
  tokens_kept k i (hands_on j t u v rest rest' e taken other) h = omega (
    arith,
    tally-Taken (token k i) taken,
    tally-Taken (token k i) other,
    token-received k i j v u,
  )
  tokens_kept k i (times_out j t rest taken) h = omega (arith, tally-Taken (token k i) taken)
  tokens_kept k i (stops rest e taken) h = omega (arith, tally-Taken (token k i) taken)
  tokens_kept k i (is_overheard j t rest rest' taken other) h =
      omega (arith, tally-Taken (token k i) taken, tally-Taken (token k i) other)
  tokens_kept k i (reads_closed j t rest e taken) h =
      omega (arith, tally-Taken (token k i) taken, token-received k i j t no_tunnel, no_hit k i j h)
  tokens_kept k i (sends_closed p rest e taken sent) h = omega arith

  tokens_kept_on :
      (k : Kind) (i : ℕ) {m u : Manager State} (ss : Steps K w m u)
      → 0 < i
      → tally (token k i) u.processes ≡ tally (token k i) m.processes + all_made k i ss
  tokens_kept_on k i stays h = omega arith
  tokens_kept_on k i (goes_on ss alive s) h =
      omega (arith, tokens_kept_on k i ss h, tokens_kept k i s h)

  -- In any order of the goroutines, the confirmations of a kind and an id that are on their way and
  -- the calls of that kind and id that have returned nil after one are together as many more as the
  -- goroutines that have come to their confirmation: none is lost or doubled while it is passed on,
  -- also by callers that give up or while the manager stops. No tunnel has the id 0.
  pub confirmations_add_up :
      (k : Kind) (i : ℕ) {m u : Manager State} (ss : Steps K w m u)
      → 0 < i
      → tally (in_transit k i) u.processes + tally (ended_call k i) u.processes
        ≡ tally (in_transit k i) m.processes + tally (ended_call k i) m.processes + all_made k i ss
  confirmations_add_up k i {m} {u} ss h =
      omega
        (arith, tokens_kept_on k i ss h, tally-token k i u.processes, tally-token k i m.processes)
