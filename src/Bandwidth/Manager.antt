-- ===== src/Bandwidth/Manager.antt =====
-- internal/bandwidth/stat_counter.go, `StatCounterManager`: the counters by interface name. The
-- `sync.Map` is an association list; a counter's goroutine writes the counter that the map holds.
use mesh_manager.Common.{
  ℕ, ◌+◌, ◌%◌, ◌<◌, ◌≡◌, refl, ◌∙◌, Bool, true, false, List, [], ◌∷◌, Option, none, some,
  if◌then◌else◌, Bytes, equal, equal_self, arith, load, store, delete, load-store, load-delete,
}
use mesh_manager.Bandwidth.{u64, Counter, Link, new_stat_counter}

abbrev pub Counters : Type 0
Counters = List (Bytes × Counter)

-- Totals in bytes, as in Models.
pub record Manager : Type 0 where
  pub counters : Counters
  pub is_running : Bool
  pub total_rx : ℕ
  pub total_tx : ℕ
  pub total_rx_bandwidth : ℕ
  pub total_tx_bandwidth : ℕ

pub data StatsError : Type 0 where
  already_exists already_running no_link not_there : StatsError

-- `StatCounter.Start`, up to the goroutine; the link is what `LinkByName` gives.
pub start : Counter → Option Link → Option StatsError × Counter
start c none = (some (if c.running then already_running else no_link), c)
start c (some link) =
    if c.running
    then (some already_running, c)
    else (none, record c { running = true; last_rx = link.rx; last_tx = link.tx })

-- `Add`: the counter is in the map before it is started.
abbrev add_new : Manager → Bytes → Option StatsError × Counter → Option StatsError × Manager
add_new m iface (e, c) = (e, record m { counters = store iface c m.counters })

unfoldable pub add : Manager → Bytes → Option Link → Option StatsError × Manager
unfolding start
add m iface link = elim (load iface m.counters) [
  | some c ↦ (some already_exists, m)
  | none ↦ add_new m iface (start (new_stat_counter iface) link)
]

-- `Remove`: the counter leaves the map and is stopped, which ends its goroutine.
pub remove : Manager → Bytes → Option StatsError × Manager × Option Counter
remove m iface = elim (load iface m.counters) [
  | some c ↦
      (none, record m { counters = delete iface m.counters }, some (record c { running = false }))
  | none ↦ (some not_there, m, none)
]

-- `totalStatsUpdate` and `updateTotalBandwidth`, without the event that each sends.
pub total_stats_update : Manager → ℕ → ℕ → Manager
total_stats_update m rx tx = record m { total_rx = m.total_rx + rx; total_tx = m.total_tx + tx }

abbrev sum_by : (Counter → ℕ) → ℕ → Counters → ℕ
sum_by f acc [] = acc
sum_by f acc ((j, c) ∷ m) = sum_by f ((acc + f c) % u64) m

pub update_total_bandwidth : Manager → Manager
update_total_bandwidth m = record m {
  total_rx_bandwidth = sum_by (λ c. c.rx_bandwidth) 0 m.counters;
  total_tx_bandwidth = sum_by (λ c. c.tx_bandwidth) 0 m.counters;
}

-- `StatCounterManager.Stop`: every counter in the map is stopped.
abbrev stop_all : Counters → Counters
stop_all [] = []
stop_all ((j, c) ∷ m) = (j, record c { running = false }) ∷ stop_all m

pub stop : Manager → Manager
stop m = record m { is_running = false; counters = stop_all m.counters }

module _ (m : Manager) (iface : Bytes) where
  abbrev pub running_from : Link → Counter
  running_from l = record (new_stat_counter iface) {
    running = true;
    last_rx = l.rx;
    last_tx = l.tx;
  }

  -- Adding an interface that has no counter and whose link is there succeeds: the interface then
  -- has a counter that runs from the link's figures, and the other interfaces keep theirs.
  pub add-load :
      (l : Link)
      → load iface m.counters ≡ none
      → ((add m iface (some l)).0 ≡ none)
        × ((j : Bytes)
            → load j (add m iface (some l)).1.counters
              ≡ (if equal iface j then some (running_from l) else load j m.counters))
  unfolding add
  add-load l e = rw (e, add) (refl, λ j. load-store iface j (running_from l) m.counters)

  -- Adding an interface that has no counter and whose link is not there fails, but leaves a stopped
  -- counter behind: from then on the interface cannot be added, though its link be there.
  pub add_stuck :
      (later : Option Link)
      → load iface m.counters ≡ none
      → ((add m iface none).0 ≡ some no_link)
        × (load iface (add m iface none).1.counters ≡ some (new_stat_counter iface))
        × (add (add m iface none).1 iface later ≡ (some already_exists, (add m iface none).1))
  unfolding add
  add_stuck later e =
      let there : load iface (store iface (new_stat_counter iface) m.counters)
          ≡ some (new_stat_counter iface) =
        load-store iface iface _ m.counters ∙ rw equal_self in
      ground arith

  -- Removing an interface that has a counter stops that counter, and takes it alone out of the map;
  -- after it the interface can be added again.
  pub remove-load :
      (c : Counter)
      → load iface m.counters ≡ some c
      → ((remove m iface).0 ≡ none)
        × ((remove m iface).2 ≡ some (record c { running = false }))
        × ((j : Bytes)
            → load j (remove m iface).1.counters
              ≡ (if equal iface j then none else load j m.counters))
  unfolding remove
  remove-load c e = rw (e, remove) (refl, refl, λ j. load-delete iface j m.counters)

abbrev pub sum_of : (Counter → ℕ) → Counters → ℕ
sum_of f [] = 0
sum_of f ((j, c) ∷ m) = f c + sum_of f m

sum_by-sum_of :
    (f : Counter → ℕ) (acc : ℕ) (m : Counters)
    → acc < u64
    → sum_by f acc m ≡ (acc + sum_of f m) % u64
sum_by-sum_of f acc [] h = omega arith
sum_by-sum_of f acc ((j, c) ∷ m) h =
    omega (arith, sum_by-sum_of f ((acc + f c) % u64) m (omega arith))

-- The total bandwidths are the sums over the counters, modulo 2^64, whatever order the map has.
pub update_total_bandwidth_sums :
    (m : Manager)
    → ((update_total_bandwidth m).total_rx_bandwidth
        ≡ sum_of (λ c. c.rx_bandwidth) m.counters % u64)
      × ((update_total_bandwidth m).total_tx_bandwidth
          ≡ sum_of (λ c. c.tx_bandwidth) m.counters % u64)
      × ((update_total_bandwidth m).counters ≡ m.counters)
unfolding update_total_bandwidth
update_total_bandwidth_sums m = (
  omega (arith, sum_by-sum_of (λ c. c.rx_bandwidth) 0 m.counters),
  omega (arith, sum_by-sum_of (λ c. c.tx_bandwidth) 0 m.counters),
  refl,
)
