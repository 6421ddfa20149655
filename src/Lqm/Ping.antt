-- ===== src/Lqm/Ping.antt =====
-- internal/services/lqm/lqm.go, `pingTracker` and `calculateQuality`. Times that are compared to
-- the last tick are in nanoseconds.
pub mod Decay
use mesh_manager.Common.{
  ℕ, suc, ◌+◌, ◌-◌, ◌*◌, ◌/◌, Bool, true, false, ◌&&◌, not, List, [], ◌∷◌, Option, none, some,
  Bytes, codes, equal, ltb, ◌==◌, if◌then◌else◌, ℤ, pos, Piece, lit, group, in_word, match_in,
}
use mesh_manager.Lqm.{Floats, Tracker, Pings}
use mesh_manager.Lqm.Neighbors.{word, first_group}

abbrev pub second : ℕ
second = 1000000000

abbrev pub time_regex : List Piece
time_regex = lit (codes "time=") ∷ word ∷ lit (codes " ms") ∷ []

abbrev pub at_most_100 : ℕ → ℕ
at_most_100 n = if ltb 100 n then 100 else n

-- The new quality, held between 0 and 100: one up, from 0 to 100 at once, and five down for a ping
-- that is lost.
unfoldable pub next_ping_quality : Bool → ℕ → ℕ
next_ping_quality true old = at_most_100 (if old == 0 then 100 else old + 1)
next_ping_quality false old = at_most_100 ((if old == 0 then 0 else old + 1) - 5)

-- Whether the tracker was not seen for a minute before the last tick, if there was one.
abbrev pub was_down : Option ℕ → ℕ → Bool
was_down none last_seen = false
was_down (some tick) last_seen = ltb ((last_seen + 60) * second) tick

module _ (fl : Floats) where
  open fl use {Float, ratio, plus, times, over, less, is_zero, to_nearest, parse_float}

  abbrev pub milliseconds : Option Bytes → Option Float
  milliseconds none = none
  milliseconds (some text) = elim (parse_float text) [
    | none ↦ none
    | some ms ↦ some (over ms (ratio 1000 1))
  ]

  -- The time in seconds that `ping6` prints; none if it fails or prints none.
  unfoldable pub ping_time : Option Bytes → Option Float
  ping_time none = none
  ping_time (some output) = milliseconds (first_group (match_in time_regex output))

  abbrev pub next_success_time : Float → Float → Float
  next_success_time old ptime =
      if is_zero old then ptime else plus (times old (ratio 4 10)) (times ptime (ratio 6 10))

  -- `pingTracker` after the ping, at a time `now`.
  abbrev pub pinged : ℕ → Option ℕ → Option Float → Tracker Float → Tracker Float
  pinged now last_tick none t = record t {
    pings = record t.pings { ping_quality = next_ping_quality false t.pings.ping_quality };
  }
  pinged now last_tick (some ptime) t = record t {
    pings = record t.pings {
      ping_quality = next_ping_quality true t.pings.ping_quality;
      ping_success_time = next_success_time t.pings.ping_success_time ptime;
    };
    last_up = if was_down last_tick t.last_seen then now / second else t.last_up;
    last_seen = now / second;
  }

  unfoldable pub ping_tracker : ℕ → Option ℕ → Option Bytes → Tracker Float → Tracker Float
  ping_tracker now last_tick output t =
      if equal t.ipv6ll [] then t else pinged now last_tick (ping_time output) t

  abbrev pub quality_of : Float → ℕ → Option ℤ
  quality_of tx_quality ping_quality =
      if less (ratio 0 1) tx_quality
      then if ltb 0 ping_quality
        then some (to_nearest (over (plus tx_quality (ratio ping_quality 1)) (ratio 2 1)))
        else some (to_nearest tx_quality)
      else if ltb 0 ping_quality
      then some (to_nearest (ratio ping_quality 1))
      else none

  unfoldable pub calculate_quality : Tracker Float → Tracker Float
  calculate_quality t = record t {
    pings = record t.pings { quality = quality_of t.traffic.tx_quality t.pings.ping_quality };
  }
