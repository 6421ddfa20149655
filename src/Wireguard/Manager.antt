-- ===== src/Wireguard/Manager.antt =====
-- internal/wireguard/wireguard.go: the goroutines of a `Manager`, that is `run`, those that it
-- starts for `addPeer` and `removePeer`, and the callers of `AddPeer`, `RemovePeer` and `Stop`,
-- which meet on channels without a buffer. A step is one meeting, the work of one goroutine, or
-- one time limit.
pub mod Confirmations
pub mod Deadlock
mod Tests
use mesh_manager.Common.{
  ℕ, suc, ◌+◌, ◌≡◌, Bool, true, false, List, [], ◌∷◌, ◌++◌, Option, none, some, map, ◌==◌, ◌&&◌,
  if◌then◌else◌,
}
use mesh_manager.Models.{Tunnel, TunnelStore, no_tunnel, list_wireguard_tunnels}
use mesh_manager.Wireguard.{Kernel, World}
use mesh_manager.Wireguard.Peers.{
  Peers, Outcome, confirmed, unconfirmed, panicked, add_peer, remove_peer,
}

-- Which of the two pairs of channels.
pub data Kind : Type 0 where
  adding removing : Kind

abbrev pub same_kind : Kind → Kind → Bool
same_kind adding adding = true
same_kind removing removing = true
same_kind _ _ = false

-- How `AddPeer` or `RemovePeer` returns: with nil after a confirmation, with nil at once, or with
-- one of two errors.
pub data End : Type 0 where
  ended_well not_enabled timed_out shutting_down : End

-- Where a goroutine stands: a caller that sends its tunnel, that waits in the select, that sends
-- back another's confirmation, and that has returned; a goroutine that works, and that sends its
-- confirmation; a `Stop` that sends on `shutdownChan`, and one whose signal a caller has taken.
pub data Process : Type 0 where
  asking : Kind → Tunnel → Process
  waiting : Kind → Tunnel → Process
  returning : Kind → Tunnel → Tunnel → Process
  ended : Kind → Tunnel → End → Process
  working : Kind → Tunnel → Process
  confirming : Kind → Tunnel → Process
  stopping : Process
  unheard : Process

-- `run` reads its channels, or has closed them; the program is over after a panic.
pub data Phase : Type 0 where
  running closed crashed : Phase

abbrev pub is_over : Phase → Bool
is_over crashed = true
is_over _ = false

pub record Manager (S : Type 0) : Type 0 where
  pub processes : List Process
  pub phase : Phase
  pub kernel : S
  pub peers : Peers

-- A process that is one of some, and the others.
pub data Taken (p : Process) : List Process → List Process → Type 0 where
  here : {ps : List Process} → Taken p (p ∷ ps) ps
  there : {q : Process} {ps rest : List Process} → Taken p ps rest → Taken p (q ∷ ps) (q ∷ rest)

-- The start of `AddPeer`, and of `RemovePeer`.
abbrev pub add_call : Tunnel → Process
add_call t = if t.enabled then asking adding t else ended adding t not_enabled

abbrev pub remove_call : Tunnel → Process
remove_call t = asking removing t

-- What a caller in the select does with a confirmation.
abbrev pub received : Kind → Tunnel → Tunnel → Process
received k t u = if u.id == t.id then ended k t ended_well else returning k t u

-- What panics when the channels are closed: every send.
abbrev pub sends : Process → Bool
sends (asking k t) = true
sends (returning k t u) = true
sends (confirming k t) = true
sends _ = false

abbrev pub first_calls : Option (List Tunnel) → Option (List Process)
first_calls none = none
first_calls (some ts) = some (map add_call ts)

module _ (K : Kernel) (w : World) where
  open K use {State}

  abbrev pub carry_out : Kind → Tunnel → State → Peers → Outcome State
  carry_out adding t s peers = add_peer K w t s peers
  carry_out removing t s peers = remove_peer K t s peers

  -- The calls that `initializeTunnels` makes at the same time.
  unfoldable pub initialize_tunnels : (s : TunnelStore) → s.Db → Option (List Process)
  initialize_tunnels s d = first_calls (list_wireguard_tunnels s d)

  -- The calls that `removeAllPeers` makes at the same time.
  pub remove_all_peers : Peers → List Process
  remove_all_peers peers = map (λ (iface, t). remove_call t) peers

  -- `Run`: the loop runs, and the first calls are made.
  abbrev pub started : List Process → State → Manager State
  started ps s = record { processes = ps; phase = running; kernel = s; peers = [] }

  pub data Step (m : Manager State) : Manager State → Type 0 where
    adds : (t : Tunnel) → Step m (record m { processes = add_call t ∷ m.processes })
    removes : (t : Tunnel) → Step m (record m { processes = remove_call t ∷ m.processes })
    asks_to_stop : Step m (record m { processes = stopping ∷ m.processes })
    is_sent :
        (k : Kind) (t : Tunnel) (rest : List Process)
        → m.phase ≡ running
        → Taken (asking k t) m.processes rest
        → Step m (record m { processes = waiting k t ∷ working k t ∷ rest })
    works :
        (k : Kind) (t : Tunnel) (rest : List Process) (s : State) (peers : Peers)
        → Taken (working k t) m.processes rest
        → carry_out k t m.kernel m.peers ≡ confirmed s peers
        → Step m (record m { processes = confirming k t ∷ rest; kernel = s; peers = peers })
    fails :
        (k : Kind) (t : Tunnel) (rest : List Process) (s : State) (peers : Peers)
        → Taken (working k t) m.processes rest
        → carry_out k t m.kernel m.peers ≡ unconfirmed s peers
        → Step m (record m { processes = rest; kernel = s; peers = peers })
    breaks :
        (k : Kind) (t : Tunnel) (rest : List Process) (s : State) (peers : Peers)
        → Taken (working k t) m.processes rest
        → carry_out k t m.kernel m.peers ≡ panicked s peers
        → Step m (record m { phase = crashed })
    confirms :
        (k : Kind) (t u : Tunnel) (rest rest' : List Process)
        → m.phase ≡ running
        → Taken (confirming k u) m.processes rest
        → Taken (waiting k t) rest rest'
        → Step m (record m { processes = received k t u ∷ rest' })
    hands_on :
        (k : Kind) (t u v : Tunnel) (rest rest' : List Process)
        → m.phase ≡ running
        → Taken (returning k t u) m.processes rest
        → Taken (waiting k v) rest rest'
        → Step m (record m { processes = waiting k t ∷ received k v u ∷ rest' })
    times_out :
        (k : Kind) (t : Tunnel) (rest : List Process)
        → Taken (waiting k t) m.processes rest
        → Step m (record m { processes = ended k t timed_out ∷ rest })
    stops :
        (rest : List Process)
        → m.phase ≡ running
        → Taken stopping m.processes rest
        → Step m (record m { processes = rest; phase = closed })
    is_overheard :
        (k : Kind) (t : Tunnel) (rest rest' : List Process)
        → Taken stopping m.processes rest
        → Taken (waiting k t) rest rest'
        → Step m (record m { processes = unheard ∷ ended k t shutting_down ∷ rest' })
    reads_closed :
        (k : Kind) (t : Tunnel) (rest : List Process)
        → m.phase ≡ closed
        → Taken (waiting k t) m.processes rest
        → Step m (record m { processes = received k t no_tunnel ∷ rest })
    sends_closed :
        (p : Process) (rest : List Process)
        → m.phase ≡ closed
        → Taken p m.processes rest
        → sends p ≡ true
        → Step m (record m { phase = crashed })

  -- A number of steps, none of which follows a panic.
  pub data Steps (m : Manager State) : Manager State → Type 0 where
    stays : Steps m m
    goes_on : {u v : Manager State} → Steps m u → is_over u.phase ≡ false → Step u v → Steps m v

-- How much some processes count together.
abbrev pub tally : (Process → ℕ) → List Process → ℕ
tally f [] = 0
tally f (p ∷ ps) = f p + tally f ps
