-- ===== src/Bandwidth.antt =====
-- internal/bandwidth/stat_counter.go, `StatCounter`: one round of the goroutine that `Start` runs.
-- Megabytes are counted in bytes, as in Models.
pub mod Manager
pub mod Rounds
mod Tests
use mesh_manager.Common.{
  ℕ, ◌+◌, ◌-◌, ◌%◌, ◌^◌, Bool, true, false, not, ◌&&◌, List, [], ◌∷◌, Option, none, some, ltb, ◌==◌,
  if◌then◌else◌, Bytes,
}
use mesh_manager.Store.{Store}
use mesh_manager.Models.{Tunnel, TunnelStore, found, find_tunnel_by_interface}

-- Values of a uint64.
abbrev pub u64 : ℕ
u64 = 18446744073709551616

pub record Counter : Type 0 where
  pub iface : Bytes
  pub last_rx : ℕ
  pub last_tx : ℕ
  pub last_new_rx : ℕ
  pub last_new_tx : ℕ
  pub running : Bool
  pub rx_bandwidth : ℕ
  pub tx_bandwidth : ℕ

-- `newStatCounter`.
abbrev pub new_stat_counter : Bytes → Counter
new_stat_counter iface = record {
  iface = iface;
  last_rx = 0;
  last_tx = 0;
  last_new_rx = 0;
  last_new_tx = 0;
  running = false;
  rx_bandwidth = 0;
  tx_bandwidth = 0;
}

-- The byte counters that the kernel keeps of a link: received and sent.
pub record Link : Type 0 where
  pub rx : ℕ
  pub tx : ℕ

-- What a round tells the rest: the tunnel's figures on the event channel, and the callback with the
-- new bytes.
pub data Notice : Type 0 where
  tunnel_stats : Tunnel → Notice
  stats_callback : ℕ → ℕ → Notice

-- How a round ends: the goroutine returns, or goes on with a new `count`.
pub data Round (Db : Type 0) : Type 0 where
  returns : Counter → Db → Round Db
  next : Counter → ℕ → Db → List Notice → Round Db

-- `count != 0 && count%2 == 0`.
abbrev pub reports : ℕ → Bool
reports count = not (count == 0) && count % 2 == 0

-- The counter and the tunnel after `rx` received bytes, not fewer than before, are read.
abbrev pub counter_rx : Counter → Tunnel → ℕ → Counter
counter_rx c t rx = record c {
  rx_bandwidth = t.rx_bytes_per_sec;
  last_new_rx = rx - c.last_rx;
  last_rx = rx;
}

abbrev pub tunnel_rx : Counter → Tunnel → ℕ → ℕ → Tunnel
tunnel_rx c t count rx = record t {
  rx_bytes = (t.rx_bytes + (rx - c.last_rx)) % u64;
  total_rx = t.total_rx + (rx - c.last_rx);
  rx_bytes_per_sec =
      if reports count then (c.last_new_rx + (rx - c.last_rx)) % u64 else t.rx_bytes_per_sec;
}

-- The same for the sent bytes; the counter is written last, after the tunnel is saved.
abbrev pub counter_tx : Counter → Tunnel → ℕ → Counter
counter_tx c t tx = record c {
  tx_bandwidth = t.tx_bytes_per_sec;
  last_new_tx = tx - c.last_tx;
  last_tx = tx;
}

abbrev pub tunnel_tx : Counter → Tunnel → ℕ → ℕ → Tunnel
tunnel_tx c t count tx = record t {
  tx_bytes = (t.tx_bytes + (tx - c.last_tx)) % u64;
  total_tx = t.total_tx + (tx - c.last_tx);
  tx_bytes_per_sec =
      if reports count then (c.last_new_tx + (tx - c.last_tx)) % u64 else t.tx_bytes_per_sec;
}

module _ (s : TunnelStore) where
  open s use {Db, save}

  -- The end of the round, from `s.TXBandwidth = ...` on.
  publish : Counter → Tunnel → ℕ → ℕ → Db → Round Db
  publish c t tx count d =
      let c' = counter_tx c t tx in
      next c' (count + 1) d (tunnel_stats t ∷ stats_callback c'.last_new_rx c'.last_new_tx ∷ [])

  -- The save on every second round; `count` goes back from 100 to 2 before it.
  store_round : Counter → Tunnel → ℕ → ℕ → Db → Round Db
  unfolding publish
  store_round c t tx count d =
      let count' : ℕ = if count == 100 then 2 else count in
      elim (save d t) [ none ↦ next c count' d [] | some d' ↦ publish c t tx count' d' ]

  measure_tx : Counter → Tunnel → ℕ → Db → ℕ → Round Db
  unfolding publish store_round
  measure_tx c t count d tx =
      if ltb tx c.last_tx
      then next (record c { last_tx = tx }) count d []
      else (let t' = tunnel_tx c t count tx in
          if reports count then store_round c t' tx count d else publish c t' tx count d)

  measure : Counter → Tunnel → ℕ → Db → Link → Round Db
  unfolding measure_tx
  measure c t count d link =
      if ltb link.rx c.last_rx
      then next (record c { last_rx = link.rx }) count d []
      else (let t' = tunnel_rx c t count link.rx in
          measure_tx (counter_rx c t' link.rx) t' count d link.tx)

  -- The round of an active tunnel whose link is read, or none if the link is gone.
  observe : Counter → Tunnel → ℕ → Db → Option Link → Round Db
  unfolding measure
  observe c t count d none = returns c d
  observe c t count d (some link) = measure c t count d link

  -- One pass through `for s.running`, on the tunnel table `d` and the link as it is read.
  unfoldable pub round : Counter → ℕ → Db → Option Link → Round Db
  unfolding observe
  round c count d link =
      if not c.running then returns c d else elim (find_tunnel_by_interface s d c.iface) [
        | found t ↦ if not t.active then returns c d else observe c t count d link
        | _ ↦ returns c d
      ]
