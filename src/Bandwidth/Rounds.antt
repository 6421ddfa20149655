-- ===== src/Bandwidth/Rounds.antt =====
-- internal/bandwidth/stat_counter.go: what the rounds of a counter do to the stored tunnel.
use mesh_manager.Common.{
  ℕ, ◌+◌, ◌-◌, ◌%◌, ◌≤◌, ◌≡◌, refl, ◌⊎◌, inl, inr, true, false, List, [], ◌∷◌, Option, none, some,
  ◌==◌, if◌then◌else◌, arith,
}
use mesh_manager.Models.{
  Tunnel, TunnelStore, First, found, not_found, failed, find_tunnel_by_interface,
}
use mesh_manager.Bandwidth.{
  u64, Counter, Link, Notice, tunnel_stats, stats_callback, Round, returns, next, reports,
  counter_rx, tunnel_rx, counter_tx, tunnel_tx, measure, observe, round,
}

-- The tunnel after a round that sees both counters grow.
abbrev pub observed : Counter → Tunnel → ℕ → Link → Tunnel
observed c t count link =
    tunnel_tx (counter_rx c (tunnel_rx c t count link.rx) link.rx) (tunnel_rx c t count link.rx)
      count link.tx

-- The counter after such a round.
abbrev pub advanced : Counter → Tunnel → ℕ → Link → Counter
advanced c t count link =
    counter_tx (counter_rx c (tunnel_rx c t count link.rx) link.rx) (observed c t count link)
      link.tx

-- What is told of such a round.
abbrev pub told : Counter → Tunnel → ℕ → Link → List Notice
told c t count link =
    tunnel_stats (observed c t count link)
    ∷ stats_callback (link.rx - c.last_rx) (link.tx - c.last_tx)
    ∷ []

-- The count with which a round goes on is at most 100.
abbrev pub CountIn : {Db : Type 0} → Round Db → Type 0
CountIn (returns c d) = Unit
CountIn (next c count d es) = count ≤ 100

measure-CountIn :
    (s : TunnelStore) (c : Counter) (t : Tunnel) (count : ℕ) (d : s.Db) (link : Link)
    → count ≤ 100
    → CountIn (measure s c t count d link)
unfolding measure
measure-CountIn s c t count d link h = ground arith

module _ (s : TunnelStore) (c : Counter) (t : Tunnel) (count : ℕ) (d : s.Db) (link : Link) where
  -- The counter runs, its tunnel is active, and neither byte counter of the link has fallen.
  abbrev pub Grows : Type 0
  Grows =
      (c.running ≡ true)
      × (find_tunnel_by_interface s d c.iface ≡ found t)
      × (t.active ≡ true)
      × (c.last_rx ≤ link.rx)
      × (c.last_tx ≤ link.tx)

  -- A round that does not report stores nothing: the table is the one it read.
  pub round_silent :
      Grows
      → reports count ≡ false
      → round s c count d (some link)
        ≡ next (advanced c t count link) (count + 1) d (told c t count link)
  unfolding round
  round_silent h quiet = ground arith

  -- A round that reports saves the tunnel as it was read, with the new bytes of this round added.
  pub round_saved :
      (d' : s.Db)
      → Grows
      → reports count ≡ true
      → s.save d (observed c t count link) ≡ some d'
      → round s c count d (some link)
        ≡ next
            (advanced c t count link)
            ((if count == 100 then 2 else count) + 1)
            d'
            (told c t count link)
  unfolding round
  round_saved d' h loud saved = ground arith

First-cases : (r : First Tunnel) → ((t : Tunnel) × (r ≡ found t)) ⊎ ((r ≡ not_found) ⊎ (r ≡ failed))
First-cases (found t) = inl (t, refl)
First-cases not_found = inr (inl refl)
First-cases failed = inr (inr refl)

-- No round carries the count past 100, from a count of at most 100.
pub round-CountIn :
    (s : TunnelStore) (c : Counter) (count : ℕ) (d : s.Db) (link : Option Link)
    → count ≤ 100
    → CountIn (round s c count d link)
unfolding round observe
round-CountIn s c count d none h = ground arith
round-CountIn s c count d (some link) h =
    elim (First-cases (find_tunnel_by_interface s d c.iface)) [
      | inl (t, e) ↦ ground (arith, measure-CountIn s c t count d link)
      | inr other ↦ ground arith
    ]

-- What the second of two rounds has added to the tunnel that it saves. The first one, at a count
-- that does not report, read the tunnel and stored nothing.
pub record TwoRounds (c : Counter) (t : Tunnel) (link link' : Link) (u : Tunnel) : Type 0 where
  pub rx_rate : u.rx_bytes_per_sec ≡ (link'.rx - c.last_rx) % u64
  pub tx_rate : u.tx_bytes_per_sec ≡ (link'.tx - c.last_tx) % u64
  pub rx_added : u.rx_bytes ≡ (t.rx_bytes + (link'.rx - link.rx)) % u64
  pub tx_added : u.tx_bytes ≡ (t.tx_bytes + (link'.tx - link.tx)) % u64
  pub total_rx_added : u.total_rx ≡ t.total_rx + (link'.rx - link.rx)
  pub total_tx_added : u.total_tx ≡ t.total_tx + (link'.tx - link.tx)

module _ (s : TunnelStore) (c : Counter) (t : Tunnel) (count : ℕ) (d d' : s.Db)
    (link link' : Link) where
  -- Two rounds, of which only the second reports, with the byte counters growing through both, on
  -- a table that nothing else changes: each round tells the manager its own growth, but stored is
  -- only the tunnel of the second. The rate in that is the growth over both rounds, while to its
  -- bytes and its totals only the growth of the second one is added, so that the bytes of the first
  -- round are in neither of them.
  pub round-TwoRounds :
      Grows s c t count d link
      → link.rx ≤ link'.rx
      → link.tx ≤ link'.tx
      → reports count ≡ false
      → reports (count + 1) ≡ true
      → s.save d (observed (advanced c t count link) t (count + 1) link') ≡ some d'
      → (round s c count d (some link)
          ≡ next (advanced c t count link) (count + 1) d (
              tunnel_stats (observed c t count link)
              ∷ stats_callback (link.rx - c.last_rx) (link.tx - c.last_tx)
              ∷ []))
        × (round s (advanced c t count link) (count + 1) d (some link')
            ≡ next
                (advanced (advanced c t count link) t (count + 1) link')
                ((if count + 1 == 100 then 2 else count + 1) + 1)
                d'
                (tunnel_stats (observed (advanced c t count link) t (count + 1) link')
                  ∷ stats_callback (link'.rx - link.rx) (link'.tx - link.tx)
                  ∷ []))
        × TwoRounds c t link link' (observed (advanced c t count link) t (count + 1) link')
  round-TwoRounds h up_rx up_tx quiet loud saved = (
    round_silent s c t count d link h quiet,
    round_saved s (advanced c t count link) t (count + 1) d link' d' (h.0, h.1, h.2, up_rx, up_tx)
        loud saved,
    ground arith,
  )
