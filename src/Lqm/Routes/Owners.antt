-- ===== src/Lqm/Routes/Owners.antt =====
-- internal/services/lqm/lqm.go, `updateRoutes`: which routes are a tracker's own.
use mesh_manager.Common.{
  ◌≡◌, refl, ap, sym, ◌∙◌, Bool, true, not, ◌&&◌, ◌||◌, List, [], ◌∷◌, Option, none, some, Bytes,
  codes, contains, equal, ◌==◌, if◌then◌else◌, load, load-store, select, length, All, arith, inl,
  inr, Bool-cases, Option-cases,
}
use mesh_manager.Lqm.{Tracker}
use mesh_manager.Lqm.Routes.{
  Route, max_metric, parse_route, is_node_route, counted_routes, by_ipv6ll, by_ip, addresses,
  update_routes,
}
use mesh_manager.Lqm.Routes.Tally.{
  is_key, routes_via, has_any, lowest, metric_or_0, load-update_routes,
}

module _ (F : Type 0) where
  -- Whether an address is one of a tracker: its link-local one, or its IP, in place of which stands
  -- the canonical one when there is no IP. An empty text is no address.
  abbrev pub owned_by : Tracker F → Bytes → Bool
  owned_by t a =
      not (equal t.ipv6ll []) && equal t.ipv6ll a
      || (if not (equal t.ip [])
          then equal t.ip a
          else not (equal t.remote.canonical_ip []) && equal t.remote.canonical_ip a)

  -- The routes of a tracker among some lines, up to "ok": those for IPv4 prefixes that can be
  -- reached, and whose next hop is an address of the tracker.
  unfoldable pub routes_to : Tracker F → List Bytes → List Route
  routes_to t [] = []
  routes_to t (line ∷ lines) =
      let rest = routes_to t lines in
      if equal line (codes "ok") then [] else elim (parse_route line) [
        | none ↦ rest
        | some r ↦
            if contains r.prefix (codes ".") && not (r.metric == 65535) && owned_by t r.via
            then r ∷ rest
            else rest
      ]

  -- An address of the tracker `t` under the key `mac` is an address of no tracker under another
  -- key, and one of another is none of its.
  abbrev pub Alone : Bytes → Tracker F → List (Bytes × Tracker F) → Type 0
  Alone mac t ts = All (λ u. (a : Bytes) → owned_by u.1 a ≡ true → equal u.0 mac ≡ owned_by t a) ts

  -- The key of the last tracker with an address.
  owner : Bytes → List (Bytes × Tracker F) → Option Bytes → Option Bytes
  owner a [] o = o
  owner a ((k, u) ∷ ts) o = owner a ts (if owned_by u a then some k else o)

  load-registered :
      (a mac : Bytes) (t : Tracker F) (m : List (Bytes × Bytes))
      → load a (by_ip F mac t (by_ipv6ll F mac t m)) ≡ (if owned_by t a then some mac else load a m)
  load-registered a mac t m = ground (
    arith,
    load-store t.ipv6ll a mac m,
    load-store t.ip a mac (by_ipv6ll F mac t m),
    load-store t.remote.canonical_ip a mac (by_ipv6ll F mac t m),
  )

  load-addresses :
      (a : Bytes) (ts : List (Bytes × Tracker F)) (m : List (Bytes × Bytes))
      → load a (addresses F ts m) ≡ owner a ts (load a m)
  unfolding addresses owner
  load-addresses a [] m = refl
  load-addresses a ((k, u) ∷ ts) m =
      load-addresses a ts (by_ip F k u (by_ipv6ll F k u m))
      ∙ ap (owner a ts) (load-registered a k u m)

  module _ (a mac : Bytes) (t : Tracker F) where
    owner_keeps :
        (ts : List (Bytes × Tracker F)) (o : Option Bytes)
        → Alone mac t ts
        → is_key mac o ≡ owned_by t a
        → is_key mac (owner a ts o) ≡ owned_by t a
    unfolding owner
    owner_keeps [] o alone h = h
    owner_keeps ((k, u) ∷ ts) o (here, alone) h = elim (Bool-cases (owned_by u a)) [
      | inl e ↦ rw e (owner_keeps ts (some k) alone (here a e))
      | inr e ↦ rw e (owner_keeps ts o alone h)
    ]

    owner_is :
        (ts : List (Bytes × Tracker F)) (o : Option Bytes)
        → load mac ts ≡ some t
        → Alone mac t ts
        → owned_by t a ≡ true
        → is_key mac (owner a ts o) ≡ owned_by t a
    unfolding owner load
    owner_is [] o there alone h = cc
    owner_is ((k, u) ∷ ts) o there (here, alone) h = elim (Bool-cases (equal k mac)) [
      | inl e ↦
          let same : u ≡ t = ground arith in
          let owns : owned_by u a ≡ true = rw same h in
          rw owns (owner_keeps ts (some k) alone (here a owns))
      | inr e ↦ owner_is ts (if owned_by u a then some k else o) (rw e at there) alone h
    ]

    owner-owned_by :
        (ts : List (Bytes × Tracker F))
        → load mac ts ≡ some t
        → Alone mac t ts
        → is_key mac (owner a ts none) ≡ owned_by t a
    owner-owned_by ts there alone = elim (Bool-cases (owned_by t a)) [
      | inl e ↦ owner_is ts none there alone e
      | inr e ↦ owner_keeps ts none alone (sym e)
    ]

  is_key-addresses :
      (a mac : Bytes) (t : Tracker F) (ts : List (Bytes × Tracker F))
      → load mac ts ≡ some t
      → Alone mac t ts
      → is_key mac (load a (addresses F ts [])) ≡ owned_by t a
  unfolding load
  is_key-addresses a mac t ts there alone =
      ap (is_key mac) (load-addresses a ts []) ∙ owner-owned_by a mac t ts there alone

  routes_via-routes_to :
      (mac : Bytes) (t : Tracker F) (ts : List (Bytes × Tracker F)) (lines : List Bytes)
      → load mac ts ≡ some t
      → Alone mac t ts
      → routes_via (addresses F ts []) mac (counted_routes lines) ≡ routes_to t lines
  unfolding counted_routes routes_to
  routes_via-routes_to mac t ts [] there alone = refl
  routes_via-routes_to mac t ts (line ∷ lines) there alone =
      elim (Option-cases (parse_route line)) [
        | inl e ↦ ground (arith, routes_via-routes_to mac t ts lines there alone)
        | inr (r, e) ↦ ground (
          arith,
          routes_via-routes_to mac t ts lines there alone,
          is_key-addresses r.via mac t ts there alone,
        )
      ]

  -- After `updateRoutes` a tracker has the counts of its own routes, if it shares no address with
  -- another one. Its own are, of the installed routes that the lines list up to the end of the
  -- answer, those with a "." in the prefix and a metric other than 65535 whose next hop is the
  -- tracker's link-local address, or its IP, or its canonical IP when it has no IP. Its count of
  -- routes is their number, its count of nodes that of those with a prefix of 32 bits; it is
  -- routable if it has one; its metric is the lowest of theirs below 2^31 - 1, and 0 without one.
  -- Its other fields are as before.
  pub update_routes-routes_to :
      (lines : List Bytes) (ts : List (Bytes × Tracker F)) (mac : Bytes) (t : Tracker F)
      → load mac ts ≡ some t
      → Alone mac t ts
      → load mac (update_routes F lines ts).trackers
        ≡ some (record t {
          babel_route_count = length (routes_to t lines);
          node_route_count = length (select is_node_route (routes_to t lines));
          routable = has_any (routes_to t lines);
          babel_metric = metric_or_0 (lowest max_metric (routes_to t lines));
        })
  update_routes-routes_to lines ts mac t there alone =
      rw (routes_via-routes_to mac t ts lines there alone) at
        (load-update_routes F lines ts mac t there)
