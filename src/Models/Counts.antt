-- ===== src/Models/Counts.antt =====
-- internal/db/models/tunnel.go: how the counts fit together, and what the look-ups find.
use mesh_manager.Common.{
  ℕ, ◌+◌, ◌≡◌, refl, sym, ◌∙◌, ◌⊎◌, inl, inr, Bool, true, false, not, ◌&&◌, List, [], ◌∷◌, some,
  ltb, ◌==◌, ==→≡, itoa-injective, select, length, arith,
}
use mesh_manager.Store.{map_where}
use mesh_manager.Models.{
  Tunnel, TunnelStore, found, not_found, first_of, active_wireguard, is_server, interface_name,
  tunnel_id_exists, find_tunnel_by_id, clear_active_from_all_tunnels, count_all_active_tunnels,
  count_wireguard_active_tunnels, count_wireguard_active_client_tunnels,
  count_wireguard_active_server_tunnels, count_wireguard_client_tunnels,
  count_wireguard_server_tunnels, count_wireguard_tunnels,
}

module _ {A : Type 0} (p q : A → Bool) where
  -- Counting the rows that pass a test splits by a second test.
  length-select_split :
      (xs : List A)
      → length (select p xs)
        ≡ length (select (λ x. q x && p x) xs) + length (select (λ x. not (q x) && p x) xs)
  length-select_split [] = refl
  length-select_split (x ∷ xs) = ground (arith, length-select_split xs)

module _ (s : TunnelStore) (d : s.Db) where
  -- When the three counts succeed, the Wireguard tunnels are the client ones and the server ones.
  pub count_wireguard-split :
      (n c v : ℕ)
      → count_wireguard_tunnels s d ≡ some n
      → count_wireguard_client_tunnels s d ≡ some c
      → count_wireguard_server_tunnels s d ≡ some v
      → n ≡ c + v
  unfolding count_wireguard_tunnels count_wireguard_client_tunnels count_wireguard_server_tunnels
  count_wireguard-split n c v en ec ev = omega (
    arith,
    s.count-rows d _ n en,
    s.count-rows d _ c ec,
    s.count-rows d _ v ev,
    length-select_split (λ (t : Tunnel). t.is_wireguard) (λ t. t.client) (s.rows d),
  )

  -- When the three counts succeed, the active Wireguard tunnels are the active client ones and the
  -- active server ones.
  pub count_wireguard_active-split :
      (n c v : ℕ)
      → count_wireguard_active_tunnels s d ≡ some n
      → count_wireguard_active_client_tunnels s d ≡ some c
      → count_wireguard_active_server_tunnels s d ≡ some v
      → n ≡ c + v
  unfolding count_wireguard_active_tunnels count_wireguard_active_client_tunnels
      count_wireguard_active_server_tunnels
  count_wireguard_active-split n c v en ec ev = omega (
    arith,
    s.count-rows d _ n en,
    s.count-rows d _ c ec,
    s.count-rows d _ v ev,
    length-select_split active_wireguard (λ (t : Tunnel). t.client) (s.rows d),
  )

none_active :
    (ts : List Tunnel)
    → length
        (select (λ t. t.active) (map_where (λ t. t.active) (λ t. record t { active = false }) ts))
      ≡ 0
none_active [] = refl
none_active (t ∷ ts) = ground (arith, none_active ts)

-- After `ClearActiveFromAllTunnels` succeeds no tunnel counts as active, when that count succeeds.
pub count_all_active-clear :
    (s : TunnelStore) (d d' : s.Db) (n : ℕ)
    → clear_active_from_all_tunnels s d ≡ some d'
    → count_all_active_tunnels s d' ≡ some n
    → n ≡ 0
unfolding clear_active_from_all_tunnels count_all_active_tunnels
count_all_active-clear s d d' n cleared counted =
    s.count-rows d' _ n counted ∙ rw (s.update-rows d d' _ _ cleared) (none_active (s.rows d))

-- Two tunnels with one interface name have the same id, and are both servers or both clients.
pub interface_name-injective :
    (t u : Tunnel)
    → interface_name t ≡ interface_name u
    → (t.id ≡ u.id) × (is_server t ≡ is_server u)
unfolding interface_name
interface_name-injective t u h = ground (arith, itoa-injective t.id u.id)

module _ {A : Type 0} (p : A → Bool) where
  -- The first row of a selection passes the test.
  pub select_head : (xs : List A) (y : A) (ys : List A) → select p xs ≡ y ∷ ys → p y ≡ true
  select_head [] y ys h = cc
  select_head (x ∷ xs) y ys h = ground (arith, select_head xs y ys)

first_of-select :
    (i : ℕ) (rows ts : List Tunnel)
    → select (λ t. t.id == i) rows ≡ ts
    → ((ltb 0 (length ts) ≡ true) × ((t : Tunnel) × (first_of (some ts) ≡ found t) × (t.id ≡ i)))
      ⊎ ((ltb 0 (length ts) ≡ false) × (first_of (some ts) ≡ not_found))
first_of-select i rows [] e = inr (refl, refl)
first_of-select i rows (t ∷ ts) e =
    inl (ground arith, (t, refl, ==→≡ t.id i (select_head (λ u. u.id == i) rows t ts e)))

-- The id look-up and the existence test agree: when both calls run, a tunnel with that id is found
-- exactly if it exists, and the one that is found has that id.
pub find_tunnel_by_id-exists :
    (s : TunnelStore) (d : s.Db) (i n : ℕ) (ts : List Tunnel)
    → s.count d (λ t. t.id == i) ≡ some n
    → s.query d (λ t. t.id == i) ≡ some ts
    → ((tunnel_id_exists s d i ≡ some true)
        × ((t : Tunnel) × (find_tunnel_by_id s d i ≡ found t) × (t.id ≡ i)))
      ⊎ ((tunnel_id_exists s d i ≡ some false) × (find_tunnel_by_id s d i ≡ not_found))
unfolding tunnel_id_exists find_tunnel_by_id
find_tunnel_by_id-exists s d i n ts counted found_ = ground (
  arith,
  first_of-select i (s.rows d) ts (sym (s.query-rows d _ ts found_)),
  s.count-rows d _ n counted,
  s.query-rows d _ ts found_,
)
