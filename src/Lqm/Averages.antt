-- ===== src/Lqm/Averages.antt =====
-- internal/services/lqm/lqm.go, `updateStats` and `updateRunningAverages`.
use mesh_manager.Common.{
  ℕ, ◌-◌, Bool, true, false, List, [], ◌∷◌, Option, none, some, Bytes, equal, ltb, if◌then◌else◌,
}
use mesh_manager.Lqm.{Floats, Tracker, Traffic, device_to_type}

-- A link of the system with its counts of packets and errors, if it has any.
pub record LinkStats : Type 0 where
  pub name : Bytes
  pub stats : Option (ℕ × ℕ)

abbrev pub is_some : {A : Type 0} → Option A → Bool
is_some none = false
is_some (some a) = true

module _ (F : Type 0) where
  abbrev pub with_stats : Option (ℕ × ℕ) → Tracker F → Tracker F
  with_stats none t = t
  with_stats (some (packets, errors)) t = record t {
    traffic = record t.traffic { tx_packets = packets; tx_fail = errors };
  }

  -- The loop over the trackers ends at the first one on the link.
  unfoldable pub set_stats : LinkStats → List (Bytes × Tracker F) → List (Bytes × Tracker F)
  set_stats l [] = []
  set_stats l ((mac, t) ∷ ts) =
      if equal t.device l.name then (mac, with_stats l.stats t) ∷ ts else (mac, t) ∷ set_stats l ts

  unfoldable pub set_all_stats :
      List LinkStats → List (Bytes × Tracker F) → List (Bytes × Tracker F)
  set_all_stats [] ts = ts
  set_all_stats (l ∷ ls) ts =
      set_all_stats ls (if is_some (device_to_type l.name) then set_stats l ts else ts)

  abbrev pub update_stats :
      Option (List LinkStats) → List (Bytes × Tracker F) → List (Bytes × Tracker F)
  update_stats none ts = ts
  update_stats (some ls) ts = set_all_stats ls ts

module _ (fl : Floats) where
  open fl use {Float, ratio, plus, minus, times, over, less, least, greatest}

  -- A counter that went back counts as no difference.
  abbrev pub difference : ℕ → ℕ → Float
  difference now last = if ltb last now then ratio (now - last) 1 else ratio 0 1

  -- `avg*0.4 + diff*(1-0.4)`, whose constant is 0.6; the first time the average is 0.
  abbrev pub next_average : Float → ℕ → Option ℕ → Float
  next_average avg now none = ratio 0 1
  next_average avg now (some last) =
      plus (times avg (ratio 4 10)) (times (difference now last) (ratio 6 10))

  abbrev pub next_tx_quality : Float → Float → Float → Float → Float
  next_tx_quality old avg_tx avg_fail avg_retries =
      if less (ratio 0 1) avg_tx
      then times (ratio 100 1)
          (minus (ratio 1 1) (least (ratio 1 1) (over (greatest avg_fail avg_retries) avg_tx)))
      else old

  abbrev pub averaged : Traffic Float → Traffic Float
  averaged x =
      let avg_tx = next_average x.avg_tx x.tx_packets x.last_tx_packets in
      let avg_fail = next_average x.avg_tx_fail x.tx_fail x.last_tx_fail in
      let avg_retries = next_average x.avg_tx_retries x.tx_retries x.last_tx_retries in
      record x {
        avg_tx = avg_tx;
        last_tx_packets = some x.tx_packets;
        avg_tx_fail = avg_fail;
        last_tx_fail = some x.tx_fail;
        avg_tx_retries = avg_retries;
        last_tx_retries = some x.tx_retries;
        tx_quality = next_tx_quality x.tx_quality avg_tx avg_fail avg_retries;
      }

  abbrev pub with_averages : Tracker Float → Tracker Float
  with_averages t = record t { traffic = averaged t.traffic }
