-- ===== src/Api/Quality/Found.antt =====
-- internal/server/api/controllers/v1/tunnels.go, `GETTunnelLQM`: the tracker that is shown.
use mesh_manager.Common.{
  ℕ, ◌-◌, ◌≤◌, ◌≡◌, ◌≢◌, ◌⊎◌, refl, ap, inl, inr, true, false, List, [], ◌∷◌, ◌++◌, Option, none,
  some, Bytes, ℤ, pos, negsuc, All, equal_iff, trim_space, parse_uint, arith, Bool-cases,
}
use mesh_manager.Models.{Tunnel, TunnelStore, found, find_tunnel_by_id}
use mesh_manager.Lqm.{Tracker}
use mesh_manager.Api.Quality.{
  clamped, quality_of, errors_of, Held, normalize_lqm_trackers, matches, find_tracker_for_tunnel,
  LqmReply, no_data, unavailable, answered, response_for, is_empty, canonicalize_hostname,
  reply_from, get_tunnel_lqm,
}

module _ (F : Type 0) where
  -- A tracker is one for a tunnel when its address, or the canonical address of its host, is the
  -- tunnel's and that is not blank, or when its host has the tunnel's name and that is not blank.
  abbrev pub Fits : Tunnel → Tracker F → Type 0
  Fits tunnel t =
      ((trim_space tunnel.ip ≢ [])
        × ((trim_space t.ip ≡ trim_space tunnel.ip)
            ⊎ (trim_space t.remote.canonical_ip ≡ trim_space tunnel.ip)))
      ⊎ ((canonicalize_hostname tunnel.hostname ≢ [])
          × (canonicalize_hostname t.remote.hostname ≡ canonicalize_hostname tunnel.hostname))

  -- The first tracker of a list that is one for the tunnel.
  abbrev pub IsEarliest : Tunnel → List (Bytes × Tracker F) → Tracker F → Type 0
  IsEarliest tunnel ts t =
      (front : List (Bytes × Tracker F)) × (key : Bytes) × (back : List (Bytes × Tracker F)) × (ts
        ≡ front ++ (key, t) ∷ back)
      × All (λ u. ¬ Fits tunnel u.1) front
      × Fits tunnel t

  abbrev pub NoneFits : Tunnel → List (Bytes × Tracker F) → Type 0
  NoneFits tunnel ts = All (λ u. ¬ Fits tunnel u.1) ts

  is_empty_iff : (s : Bytes) → is_empty s ≡ true → s ≡ []
  is_empty_iff [] h = refl
  is_empty_iff (c ∷ cs) h = cc

  not_empty : (s : Bytes) → is_empty s ≡ false → s ≢ []
  not_empty [] h e = cc
  not_empty (c ∷ cs) h e = cc

  matches-Fits : (tunnel : Tunnel) (t : Tracker F) → matches F tunnel t ≡ true → Fits tunnel t
  unfolding matches
  matches-Fits tunnel t h = ground (
    arith,
    equal_iff (trim_space t.ip) (trim_space tunnel.ip),
    equal_iff (trim_space t.remote.canonical_ip) (trim_space tunnel.ip),
    equal_iff (canonicalize_hostname t.remote.hostname) (canonicalize_hostname tunnel.hostname),
    not_empty (trim_space tunnel.ip),
    not_empty (canonicalize_hostname tunnel.hostname),
  )

  matches_not : (tunnel : Tunnel) (t : Tracker F) → matches F tunnel t ≡ false → ¬ Fits tunnel t
  unfolding matches
  matches_not tunnel t h fits = ground (
    arith,
    equal_iff (trim_space t.ip) (trim_space tunnel.ip),
    equal_iff (trim_space t.remote.canonical_ip) (trim_space tunnel.ip),
    equal_iff (canonicalize_hostname t.remote.hostname) (canonicalize_hostname tunnel.hostname),
    is_empty_iff (trim_space tunnel.ip),
    is_empty_iff (canonicalize_hostname tunnel.hostname),
  )

  found_first :
      (tunnel : Tunnel) (ts : List (Bytes × Tracker F))
      → ((t : Tracker F) × (find_tracker_for_tunnel F tunnel ts ≡ some t) × IsEarliest tunnel ts t)
        ⊎ ((find_tracker_for_tunnel F tunnel ts ≡ none) × NoneFits tunnel ts)
  unfolding find_tracker_for_tunnel
  found_first tunnel [] = inr (refl, tt)
  found_first tunnel ((key, t) ∷ ts) = elim (Bool-cases (matches F tunnel t)) [
    | inl e ↦ inl (t, rw e refl, ([], key, ts, refl, tt, matches-Fits tunnel t e))
    | inr e ↦ elim (found_first tunnel ts) [
      | inl (u, is, (front, k, back, same, before, fits)) ↦ inl (
        u,
        rw e is,
        (
          (key, t) ∷ front,
          k,
          back,
          ap (λ xs. (key, t) ∷ xs) same,
          (matches_not tunnel t e, before),
          fits,
        ),
      )
      | inr (is, nowhere) ↦ inr (rw e is, (matches_not tunnel t e, nowhere))
    ]
  ]

  replied :
      (tunnel : Tunnel) (ts : List (Bytes × Tracker F)) (t : Tracker F)
      → find_tracker_for_tunnel F tunnel ts ≡ some t
      → reply_from F tunnel ts ≡ answered (response_for F tunnel t)
  unfolding find_tracker_for_tunnel reply_from
  replied tunnel [] t h = cc
  replied tunnel (u ∷ ts) t h = rw h refl

  -- The quality and the errors that a reply shows: neither, or two parts of a hundred.
  abbrev pub AreParts : Option ℕ → Option ℕ → Type 0
  AreParts quality errors =
      ((quality ≡ none) × (errors ≡ none))
      ⊎ ((q : ℕ) × (quality ≡ some q) × (q ≤ 100) × (errors ≡ some (100 - q)))

  quality-AreParts : (o : Option ℤ) → AreParts (quality_of o) (errors_of o)
  quality-AreParts none = inl (refl, refl)
  quality-AreParts (some (negsuc n)) = inr (0, refl, omega arith, refl)
  quality-AreParts (some (pos n)) = inr (clamped (pos n), refl, ground arith, refl)

  -- What the handler says of a tunnel when the manager holds trackers: of the first tracker that is
  -- one for the tunnel, with the quality and the errors as parts of a hundred, or neither; and that
  -- there are no data, or no trackers, only when none is one for it.
  abbrev pub Shown : Tunnel → List (Bytes × Tracker F) → LqmReply F → Type 0
  Shown tunnel ts reply =
      ((t : Tracker F) × IsEarliest tunnel ts t
        × (reply ≡ answered (response_for F tunnel t))
        × AreParts (response_for F tunnel t).quality (response_for F tunnel t).errors)
      ⊎ (((reply ≡ no_data) ⊎ ((reply ≡ unavailable) × (ts ≡ []))) × NoneFits tunnel ts)

  replied_none :
      (tunnel : Tunnel) (ts : List (Bytes × Tracker F))
      → find_tracker_for_tunnel F tunnel ts ≡ none
      → (reply_from F tunnel ts ≡ no_data) ⊎ ((reply_from F tunnel ts ≡ unavailable) × (ts ≡ []))
  unfolding reply_from
  replied_none tunnel [] h = inr (refl, refl)
  replied_none tunnel (u ∷ ts) h = inl (rw h refl)

  -- When the link quality manager is on and the id is that of a tunnel, the reply tells of the
  -- first tracker that the manager holds with the tunnel's address or its hostname; the quality
  -- and the errors that it shows are parts of a hundred, or it shows neither. If there is none,
  -- the reply is that there are no data, or, when the manager holds no tracker at all, that the
  -- service is not available.
  pub get_tunnel_lqm-answered :
      (s : TunnelStore) (d : s.Db) (id : Bytes) (i : ℕ) (tunnel : Tunnel) (held : Held F)
      → parse_uint 18446744073709551615 id ≡ some i
      → find_tunnel_by_id s d i ≡ found tunnel
      → Shown tunnel (normalize_lqm_trackers F held) (get_tunnel_lqm F true (some held) s id d)
  unfolding get_tunnel_lqm
  get_tunnel_lqm-answered s d id i tunnel held read row =
      elim (found_first tunnel (normalize_lqm_trackers F held)) [
        | inl (t, is, first) ↦ inl (
          t,
          first,
          rw (read, row) (replied tunnel (normalize_lqm_trackers F held) t is),
          quality-AreParts t.pings.quality,
        )
        | inr (is, nowhere) ↦
            inr (rw (read, row) (replied_none tunnel (normalize_lqm_trackers F held) is), nowhere)
      ]
