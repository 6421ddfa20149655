-- ===== src/Models/NextIp.antt =====
-- internal/db/models/tunnel.go, `GetNextWireguardIP`.
use mesh_manager.Common.{
  ◌+◌, ◌%◌, ◌≤◌, ◌<◌, ◌≡◌, ◌≢◌, refl, ◌⊎◌, inr, List, [], ◌∷◌, Option, some, ltb, leb, ◌==◌,
  if◌then◌else◌, Bytes, Result, ok, err, panic, ◌>>=◌, or_err, or_panic, select, All, All-map,
  arith,
}
use mesh_manager.Net.{Ip4, IsIp4, ip4_string, ipv4_of}
use mesh_manager.Net.RoundTrip.{ipv4_of-ip4_string}
use mesh_manager.Config.{Config}
use mesh_manager.Models.{Tunnel, TunnelStore, server_wireguard}

pub data IpError : Type 0 where
  query_failed no_more_ips : IpError

-- Which of two addresses the loop keeps: it compares the last two octets.
unfoldable pub higher : Ip4 → Ip4 → Ip4
higher best q =
    if ltb best.o2 q.o2
    then q
    else if q.o2 == best.o2
    then if ltb best.o3 q.o3 then q else best
    else best

-- The loop over the tunnels. An address that is not IPv4 is read as nil and indexed.
unfoldable pub highest : (Bytes → Option Bytes) → Ip4 → List Tunnel → Result IpError Ip4
highest parse_v6 best [] = ok best
highest parse_v6 best (t ∷ ts) = do
  q ← or_panic (ipv4_of parse_v6 t.ip)
  highest parse_v6 (higher best q) ts

-- The step to the next address; octets are bytes.
unfoldable pub advance : Ip4 → Result IpError Ip4
advance q =
    if q.o3 == 252
    then (let o2 = (q.o2 + 1) % 256 in
        if leb 254 o2 then err no_more_ips else ok (record q { o2 = o2; o3 = 0 }))
    else ok (record q { o3 = (q.o3 + 4) % 256 })

module _ (s : TunnelStore) (parse_v6 : Bytes → Option Bytes) where
  open s use {Db, query, rows, query-rows}

  -- With an unusable starting address the first index into it panics, in the loop or behind it.
  unfoldable pub get_next_ip4 : Db → Config → Result IpError Ip4
  get_next_ip4 d c = do
    tunnels ← or_err (query d server_wireguard) query_failed
    start ← or_panic (ipv4_of parse_v6 c.wireguard.starting_address)
    best ← highest parse_v6 start tunnels
    advance best

  unfoldable pub get_next_wireguard_ip : Db → Config → Result IpError Bytes
  get_next_wireguard_ip d c = do q ← get_next_ip4 d c; ok (ip4_string q)

-- The order by which addresses are handed out.
abbrev pub Below : Ip4 → Ip4 → Type 0
Below p q = (p.o2 < q.o2) ⊎ ((p.o2 ≡ q.o2) × (p.o3 < q.o3))

abbrev pub AtMost : Ip4 → Ip4 → Type 0
AtMost p q = (p.o2 < q.o2) ⊎ ((p.o2 ≡ q.o2) × (p.o3 ≤ q.o3))

-- An address that the allocator hands out: its last octet is a multiple of 4, and its third one is
-- not the last.
pub record IsSlot (q : Ip4) : Type 0 where
  pub is_ip4 : IsIp4 q
  pub third : q.o2 < 255
  pub aligned : q.o3 % 4 ≡ 0

advance-above : (p q : Ip4) → IsSlot p → advance p ≡ ok q → Below p q × IsSlot q
unfolding advance
advance-above p q v h = ground arith

higher-above : (p q : Ip4) → AtMost p (higher p q) × AtMost q (higher p q)
unfolding higher
higher-above p q = ground arith

higher-IsSlot : (p q : Ip4) → IsSlot p → IsSlot q → IsSlot (higher p q)
unfolding higher
higher-IsSlot p q u v = ground arith

-- The tunnels' addresses are slots.
abbrev pub HasSlot : (Bytes → Option Bytes) → Tunnel → Type 0
HasSlot parse_v6 t = (q : Ip4) × (ipv4_of parse_v6 t.ip ≡ some q) × IsSlot q

-- No tunnel of the list has an address that is read as one above `top`.
abbrev BoundedBy : (Bytes → Option Bytes) → Ip4 → Tunnel → Type 0
BoundedBy parse_v6 top t = (q : Ip4) → ipv4_of parse_v6 t.ip ≡ some q → AtMost q top

highest-max :
    (parse_v6 : Bytes → Option Bytes) (best : Ip4) (ts : List Tunnel)
    → IsSlot best
    → All (HasSlot parse_v6) ts
    → (top : Ip4) × (highest parse_v6 best ts ≡ ok top)
      × IsSlot top
      × AtMost best top
      × All (BoundedBy parse_v6 top) ts
unfolding highest
highest-max parse_v6 best [] v h = (best, refl, v, inr (refl, omega arith), tt)
highest-max parse_v6 best (t ∷ ts) v ((q, read, slot), rest) =
    let (top, e, is_slot, above, bounded) =
      highest-max parse_v6 (higher best q) ts (higher-IsSlot best q v slot) rest in
    (
      top,
      rw read e,
      is_slot,
      ground (arith, higher-above best q),
      ((λ q' read'. ground (arith, higher-above best q)), bounded),
    )

-- What the allocator promises over the tunnels `ts`: an address text that none of them has, of a
-- slot again; or that no address is left; and it never panics.
abbrev pub Allocates : (List Tunnel) → Result IpError Bytes → Type 0
Allocates ts (ok r) = (q : Ip4) × (r ≡ ip4_string q) × IsSlot q × All (λ t. t.ip ≢ r) ts
Allocates ts (err e) = e ≡ no_more_ips
Allocates ts panic = ⊥

advance_err : (top : Ip4) (e : IpError) → advance top ≡ err e → e ≡ no_more_ips
unfolding advance
advance_err top e h = ground arith

advance_panic : (top : Ip4) → advance top ≡ panic → ⊥
unfolding advance
advance_panic top h = ground arith

advance-Allocates :
    (parse_v6 : Bytes → Option Bytes) (ts : List Tunnel) (top : Ip4) (r : Result IpError Ip4)
    → advance top ≡ r
    → IsSlot top
    → All (BoundedBy parse_v6 top) ts
    → Allocates ts (r >>= λ q. ok (ip4_string q))
advance-Allocates parse_v6 ts top (ok q) e v bounded =
    let (up, slot) = advance-above top q v e in
    (
      q,
      refl,
      slot,
      All-map
          (λ t below taken.
            let at_most = below q (rw taken (ipv4_of-ip4_string parse_v6 q slot.is_ip4)) in
            ground arith)
          ts bounded,
    )
advance-Allocates parse_v6 ts top (err e') e v bounded = advance_err top e' e
advance-Allocates parse_v6 ts top panic e v bounded = advance_panic top e

-- Over a table whose Wireguard server tunnels all have slot addresses, and from a starting address
-- that is a slot, `GetNextWireguardIP` gives the text of a slot that no such tunnel has, or reports
-- that none is left; it does not panic. The query for the tunnels succeeds.
pub get_next_wireguard_ip-Allocates :
    (s : TunnelStore) (parse_v6 : Bytes → Option Bytes) (d : s.Db) (c : Config) (ts : List Tunnel)
    (start : Ip4)
    → s.query d server_wireguard ≡ some ts
    → ipv4_of parse_v6 c.wireguard.starting_address ≡ some start
    → IsSlot start
    → All (HasSlot parse_v6) (select server_wireguard (s.rows d))
    → Allocates (select server_wireguard (s.rows d)) (get_next_wireguard_ip s parse_v6 d c)
unfolding get_next_wireguard_ip get_next_ip4
get_next_wireguard_ip-Allocates s parse_v6 d c ts start e from v slots =
    let (top, reached, is_slot, _, bounded) = highest-max parse_v6 start _ v slots in
    rw (e, s.query-rows d server_wireguard ts e, from, reached)
      (advance-Allocates parse_v6 _ top (advance top) refl is_slot bounded)
