-- ===== src/Models/NextPort.antt =====
-- internal/db/models/tunnel.go, `GetNextWireguardPort`.
use mesh_manager.Common.{
  ℕ, zero, suc, ◌+◌, ◌%◌, ◌≤◌, ◌<◌, ◌≡◌, refl, inl, inr, Bool, true, false, List, some, ◌==◌,
  if◌then◌else◌, Result, ok, err, panic, ◌>>=◌, or_err, select, any, arith, Bool-cases, subst,
}
use native.Mathlib.Decide.{dec_lt}
use mesh_manager.Config.{Config}
use mesh_manager.Models.{Tunnel, TunnelStore}

pub data PortError : Type 0 where
  query_failed no_more_ports : PortError

-- `for port := start; port != 0; port++` on a uint16, with the rounds left.
unfoldable pub scan_ports : (ℕ → Bool) → ℕ → ℕ → Result PortError ℕ
scan_ports used zero port = err no_more_ports
scan_ports used (suc k) port =
    let rest = scan_ports used k ((port + 1) % 65536) in
    if port == 0 then err no_more_ports else if used port then rest else ok port

-- The set `usedPorts`.
abbrev pub used_in : List Tunnel → ℕ → Bool
used_in ts port = any (λ t. t.wireguard_port == port) ts

-- 65536 rounds: a 16-bit port has come to 0 by then.
abbrev rounds : ℕ
rounds = 65536

module _ (s : TunnelStore) where
  open s use {Db, query, rows, query-rows}

  unfoldable pub get_next_wireguard_port : Db → Config → Result PortError ℕ
  get_next_wireguard_port d c = do
    tunnels ← or_err (query d (λ t. t.is_wireguard)) query_failed
    scan_ports (used_in tunnels) rounds c.wireguard.starting_port

-- What the loop says of the ports from `port` up.
abbrev pub Scanned : (ℕ → Bool) → ℕ → Result PortError ℕ → Type 0
Scanned used port (ok p) =
    (port ≤ p) × (p < 65536) × (used p ≡ false) × ((i : ℕ) → port ≤ i → i < p → used i ≡ true)
Scanned used port (err e) = (e ≡ no_more_ports) × ((i : ℕ) → port ≤ i → i < 65536 → used i ≡ true)
Scanned used port panic = ⊥

-- At 0, where the counter wraps to, the loop ends.
scan_ports-zero : (used : ℕ → Bool) (k : ℕ) → scan_ports used k 0 ≡ err no_more_ports
unfolding scan_ports
scan_ports-zero used zero = refl
scan_ports-zero used (suc k) = refl

-- A used port goes in front of a scan.
Scanned-cons :
    (used : ℕ → Bool) (port : ℕ) (r : Result PortError ℕ)
    → used port ≡ true
    → Scanned used (port + 1) r
    → Scanned used port r
Scanned-cons used port (ok p) u (lo, hi, free, below) = (
  omega arith,
  hi,
  free,
  λ i a b. elim (dec_lt port i) [
    | yes up ↦ below i (omega arith) b
    | no eq ↦ subst (λ (j : ℕ). used j ≡ true) (omega arith) u
  ],
)
Scanned-cons used port (err e) u (is, below) = (
  is,
  λ i a b. elim (dec_lt port i) [
    | yes up ↦ below i (omega arith) b
    | no eq ↦ subst (λ (j : ℕ). used j ≡ true) (omega arith) u
  ],
)
Scanned-cons used port panic u h = h

-- After the last port the scan is over.
Scanned-end :
    (used : ℕ → Bool) (k port : ℕ)
    → used port ≡ true
    → port + 1 ≡ 65536
    → Scanned used port (scan_ports used k ((port + 1) % 65536))
Scanned-end used k port u e =
    let wraps : (port + 1) % 65536 ≡ 0 = rw e refl in
    rw (wraps, scan_ports-zero used k)
      (refl, λ i a b. subst (λ (j : ℕ). used j ≡ true) (omega arith) u)

scan_ports-Scanned :
    (used : ℕ → Bool) (k port : ℕ)
    → 0 < port
    → port < 65536
    → 65536 ≤ port + k
    → Scanned used port (scan_ports used k port)
unfolding scan_ports
scan_ports-Scanned used zero port lo hi enough = absurd (omega arith)
scan_ports-Scanned used (suc k) port lo hi enough =
    let nonzero : (port == 0) ≡ false = ground arith in
    rw nonzero (elim (Bool-cases (used port)) [
      | inl u ↦ rw u (elim (dec_lt (port + 1) 65536) [
        | yes more ↦
            let same : (port + 1) % 65536 ≡ port + 1 = omega arith in
            rw same (
              Scanned-cons used port _ u
                (scan_ports-Scanned used k (port + 1) (omega arith) more (omega arith)))
        | no last ↦ Scanned-end used k port u (omega arith)
      ])
      | inr free ↦ rw free (omega arith, hi, free, λ i a b. absurd (omega arith))
    ])

-- The port that is handed out is the lowest one, from the configured port up, that no Wireguard
-- tunnel in the table holds; and the call reports that there is none only if each port from the
-- configured one up to 65535 is held. The configured port is not 0, which `Validate` refuses, and
-- the query for the tunnels succeeds.
pub get_next_wireguard_port-Scanned :
    (s : TunnelStore) (d : s.Db) (c : Config) (ts : List Tunnel)
    → 0 < c.wireguard.starting_port
    → c.wireguard.starting_port < 65536
    → s.query d (λ t. t.is_wireguard) ≡ some ts
    → Scanned
        (used_in (select (λ t. t.is_wireguard) (s.rows d)))
        c.wireguard.starting_port
        (get_next_wireguard_port s d c)
unfolding get_next_wireguard_port
get_next_wireguard_port-Scanned s d c ts lo hi e =
    rw (e, ← s.query-rows d (λ t. t.is_wireguard) ts e)
      (scan_ports-Scanned (used_in ts) rounds c.wireguard.starting_port lo hi (omega arith))
