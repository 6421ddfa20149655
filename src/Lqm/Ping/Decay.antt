-- ===== src/Lqm/Ping/Decay.antt =====
-- internal/services/lqm/lqm.go, `pingTracker`: the quality over lost pings.
use mesh_manager.Common.{
  ℕ, zero, suc, ◌-◌, ◌*◌, ◌≤◌, ◌≡◌, ◌≢◌, refl, Bool, true, false, Option, none, Bytes, [], ◌∷◌, ap,
  ◌∙◌, equal, arith,
}
use mesh_manager.Lqm.{Floats, Tracker}
use mesh_manager.Lqm.Ping.{next_ping_quality, pinged, ping_time, ping_tracker}

pub next_ping_quality_bound : (won : Bool) (old : ℕ) → next_ping_quality won old ≤ 100
unfolding next_ping_quality
next_ping_quality_bound true old = ground arith
next_ping_quality_bound false old = ground arith

lost_step : (old n : ℕ) → old ≤ 100 → next_ping_quality false old - 4 * n ≡ old - 4 * suc n
unfolding next_ping_quality
lost_step old n h = ground arith

not_empty : (s : Bytes) → s ≢ [] → equal s [] ≡ false
unfolding equal
not_empty [] h = absurd (h refl)
not_empty (c ∷ cs) h = refl

module _ (fl : Floats) where
  open fl use {Float}

  -- `pingTracker` again and again, without an answer.
  abbrev pub lose_pings : ℕ → ℕ → Option ℕ → Tracker Float → Tracker Float
  lose_pings zero now last_tick t = t
  lose_pings (suc n) now last_tick t =
      lose_pings n now last_tick (ping_tracker fl now last_tick none t)

  lost_ping :
      (now : ℕ) (last_tick : Option ℕ) (t : Tracker Float)
      → equal t.ipv6ll [] ≡ false
      → ping_tracker fl now last_tick none t ≡ pinged fl now last_tick none t
  unfolding ping_tracker ping_time
  lost_ping now last_tick t h = rw h refl

  -- A tracker with an address that loses pings loses four points of quality with each, down to 0:
  -- after twenty-five of them it has 0. What else the tracker holds is as before. Its quality is at
  -- most 100 at the start.
  pub lose_pings-decay :
      (n now : ℕ) (last_tick : Option ℕ) (t : Tracker Float)
      → t.ipv6ll ≢ []
      → t.pings.ping_quality ≤ 100
      → lose_pings n now last_tick t
        ≡ record t { pings = record t.pings { ping_quality = t.pings.ping_quality - 4 * n } }
  lose_pings-decay zero now last_tick t h b = ground arith
  lose_pings-decay (suc n) now last_tick t h b =
      ap (lose_pings n now last_tick) (lost_ping now last_tick t (not_empty t.ipv6ll h))
      ∙ lose_pings-decay n now last_tick (pinged fl now last_tick none t) h
          (next_ping_quality_bound false t.pings.ping_quality)
      ∙ ap (λ (q : ℕ). record t { pings = record t.pings { ping_quality = q } })
          (lost_step t.pings.ping_quality n b)
