-- ===== src/Wireguard/Manager/Deadlock.antt =====
-- internal/wireguard/wireguard.go: callers that hold each other's confirmation.
use mesh_manager.Common.{
  ℕ, ◌+◌, ◌≡◌, ◌≢◌, ◌∙◌, ap, refl, true, false, List, [], ◌∷◌, ◌==◌, if◌then◌else◌, arith, some,
}
use mesh_manager.Models.{Tunnel, TunnelStore, no_tunnel, list_wireguard_tunnels}
use mesh_manager.Wireguard.{Kernel, World}
use mesh_manager.Wireguard.Peers.{Peers, confirmed, add_peer}
use mesh_manager.Wireguard.Manager.{
  Kind, adding, removing, same_kind, Process, asking, waiting, returning, Manager, running, here,
  there, add_call, received, Step, adds, removes, asks_to_stop, is_sent, works, fails, breaks,
  confirms, hands_on, times_out, stops, is_overheard, reads_closed, sends_closed, Steps, stays,
  goes_on, tally, started, initialize_tunnels, first_calls,
}
use mesh_manager.Wireguard.Manager.Confirmations.{tally-Taken}

-- A caller of a kind that can take a confirmation, now or after its tunnel is sent; and one that
-- holds the confirmation of another.
abbrev pub receiver : Kind → Process → ℕ
receiver k (asking j t) = if same_kind k j then 1 else 0
receiver k (waiting j t) = if same_kind k j then 1 else 0
receiver k _ = 0

abbrev pub holder : Kind → Process → ℕ
holder k (returning j t u) = if same_kind k j then 1 else 0
holder k _ = 0

-- What a taken confirmation makes of a caller of another kind.
received_counts :
    (k j : Kind) (t u : Tunnel)
    → receiver k (waiting j t) ≡ 0
    → (receiver k (received j t u) ≡ 0) × (holder k (received j t u) ≡ 0)
received_counts k j t u h = ground arith

add_call_counts : (k : Kind) (t : Tunnel) → holder k (add_call t) ≡ 0
add_call_counts k t = ground arith

-- Two callers, each of which has taken what is for the other.
abbrev pub crossed : {S : Type 0} → Tunnel → Tunnel → S → Peers → Manager S
crossed t u s peers = record {
  processes = received adding u t ∷ received adding t u ∷ [];
  phase = running;
  kernel = s;
  peers = peers;
}

module _ {K : Kernel} {w : World} where
  open K use {State}

  -- The new calls of a kind among the steps.
  abbrev pub new_call : Kind → {m u : Manager State} → Step K w m u → ℕ
  new_call k (adds t) = receiver k (add_call t)
  new_call k (removes t) = receiver k (asking removing t)
  new_call k _ = 0

  abbrev pub new_calls : Kind → {m u : Manager State} → Steps K w m u → ℕ
  new_calls k stays = 0
  new_calls k (goes_on ss alive s) = new_calls k ss + new_call k s

  held_on :
      (k : Kind) {m u : Manager State} (s : Step K w m u)
      → tally (receiver k) m.processes ≡ 0
      → new_call k s ≡ 0
      → (tally (receiver k) u.processes ≡ 0)
        × (tally (holder k) u.processes ≡ tally (holder k) m.processes)
  held_on k (adds t) h e = (omega arith, omega (arith, add_call_counts k t))
  held_on k (removes t) h e = (omega arith, omega arith)
  held_on k asks_to_stop h e = (omega arith, omega arith)
  held_on k (is_sent j t rest r taken) h e =
      (omega (arith, tally-Taken (receiver k) taken), omega (arith, tally-Taken (holder k) taken))
  held_on k (works j t rest s peers taken r) h e =
      (omega (arith, tally-Taken (receiver k) taken), omega (arith, tally-Taken (holder k) taken))
  held_on k (fails j t rest s peers taken r) h e =
      (omega (arith, tally-Taken (receiver k) taken), omega (arith, tally-Taken (holder k) taken))
  held_on k (breaks j t rest s peers taken r) h e = (h, refl)
  held_on k (confirms j t u rest rest' r taken other) h e =
      let before = tally-Taken (receiver k) taken in
      let then_ = tally-Taken (receiver k) other in
      let counts = received_counts k j t u (omega (arith, before, then_, h)) in
      (
        omega (arith, before, then_, counts.0),
        omega (arith, tally-Taken (holder k) taken, tally-Taken (holder k) other, counts.1),
      )
  held_on k (hands_on j t u v rest rest' r taken other) h e =
      let before = tally-Taken (receiver k) taken in
      let then_ = tally-Taken (receiver k) other in
      let counts = received_counts k j v u (omega (arith, before, then_, h)) in
      (
        omega (arith, before, then_, counts.0),
        omega (
          arith,
          tally-Taken (receiver k) other,
          tally-Taken (holder k) taken,
          tally-Taken (holder k) other,
          counts.1,
        ),
      )
  held_on k (times_out j t rest taken) h e =
      (omega (arith, tally-Taken (receiver k) taken), omega (arith, tally-Taken (holder k) taken))
  held_on k (stops rest r taken) h e =
      (omega (arith, tally-Taken (receiver k) taken), omega (arith, tally-Taken (holder k) taken))
  held_on k (is_overheard j t rest rest' taken other) h e = (
    omega (arith, tally-Taken (receiver k) taken, tally-Taken (receiver k) other),
    omega (arith, tally-Taken (holder k) taken, tally-Taken (holder k) other),
  )
  held_on k (reads_closed j t rest r taken) h e =
      let before = tally-Taken (receiver k) taken in
      let counts = received_counts k j t no_tunnel (omega (arith, before, h)) in
      (omega (arith, before, counts.0), omega (arith, tally-Taken (holder k) taken, counts.1))
  held_on k (sends_closed p rest r taken sent) h e = (h, refl)

  held_for_good :
      (k : Kind) {m u : Manager State} (ss : Steps K w m u)
      → tally (receiver k) m.processes ≡ 0
      → new_calls k ss ≡ 0
      → (tally (receiver k) u.processes ≡ 0)
        × (tally (holder k) u.processes ≡ tally (holder k) m.processes)
  held_for_good k stays h e = (h, refl)
  held_for_good k (goes_on ss alive s) h e =
      let before = held_for_good k ss h (omega arith) in
      let after = held_on k s before.0 (omega arith) in (after.0, omega (arith, after.1, before.1))

  pub crossing :
      (t u : Tunnel) (s s₁ s₂ : State) (p₁ p₂ : Peers)
      → add_peer K w t s [] ≡ confirmed s₁ p₁
      → add_peer K w u s₁ p₁ ≡ confirmed s₂ p₂
      → Steps K w (started K w (asking adding t ∷ asking adding u ∷ []) s) (crossed t u s₂ p₂)
  crossing t u s s₁ s₂ p₁ p₂ first second =
      goes_on
        (goes_on
          (goes_on
            (goes_on
              (goes_on (goes_on stays refl (is_sent adding t _ refl here)) refl
                (is_sent adding u _ refl (there (there here))))
              refl (works adding t _ s₁ p₁ (there (there (there here))) first))
            refl (works adding u _ s₂ p₂ (there (there here)) second))
          refl (confirms adding t u _ _ refl here (there (there here))))
        refl (confirms adding u t _ _ refl (there here) (there here))

module _ (K : Kernel) (w : World) (store : TunnelStore) where
  open K use {State}

  -- At the start, the calls of `AddPeer` for two enabled tunnels, whose devices can be set up, can
  -- take each other's confirmations: both then send what they hold, and none receives. As long as
  -- no other call of `AddPeer` comes, both hold it in every later step, their time limits over or
  -- not, and so `Run` does not return.
  pub initialize_tunnels_deadlock :
      (d : store.Db) (t u : Tunnel) (s s₁ s₂ : State) (p₁ p₂ : Peers) (v : Manager State)
      → list_wireguard_tunnels store d ≡ some (t ∷ u ∷ [])
      → t.enabled ≡ true
      → u.enabled ≡ true
      → t.id ≢ u.id
      → add_peer K w t s [] ≡ confirmed s₁ p₁
      → add_peer K w u s₁ p₁ ≡ confirmed s₂ p₂
      → (ss : Steps K w (crossed t u s₂ p₂) v) → new_calls adding ss ≡ 0
      → (ps : List Process) × (initialize_tunnels K w store d ≡ some ps)
        × Steps K w (started K w ps s) (crossed t u s₂ p₂)
        × (tally (holder adding) v.processes ≡ 2)
  unfolding initialize_tunnels
  initialize_tunnels_deadlock d t u s s₁ s₂ p₁ p₂ v found on on' apart first second ss quiet =
      let a : (u.id == t.id) ≡ false = ground arith in
      let b : (t.id == u.id) ≡ false = ground arith in
      let none_left : tally (receiver adding) (crossed t u s₂ p₂).processes ≡ 0 = rw (a, b) refl in
      let both : tally (holder adding) (crossed t u s₂ p₂).processes ≡ 2 = rw (a, b) refl in
      (
        asking adding t ∷ asking adding u ∷ [],
        ap first_calls found ∙ rw (on, on') refl,
        crossing t u s s₁ s₂ p₁ p₂ first second,
        (held_for_good adding ss none_left quiet).1 ∙ both,
      )
