-- ===== src/Api/Passed.antt =====
-- internal/server/api/controllers/v1/tunnels.go: the requests of clients that `POSTTunnel` accepts.
use mesh_manager.Common.{
  ◌<◌, ◌≡◌, ◌≢◌, inl, inr, Bool, true, false, not, List, [], ◌∷◌, ◌++◌, ◌==◌, if◌then◌else◌, Bytes,
  equal, split, arith, select, All, Bool-cases, Option-cases, subst, sym, ap, ◌∙◌, All-map,
  equal_iff,
}
use mesh_manager.Models.{Tunnel, TunnelStore, no_tunnel}
use mesh_manager.Config.{Config}
use mesh_manager.Api.{Outside, Site, next, skip, refuse, check_address, check_server_address}
use mesh_manager.Api.Checks.{
  Checks-refuse, Checks-check_address, Checks-check_server_address, Checks-server_parts,
  Checks-check_keys, Checks-when,
}
use mesh_manager.Api.Requests.{Checks-find_row}
use mesh_manager.Api.Results.{check-next, refuse-next}
use mesh_manager.Api.Create.{
  CreateTunnel, empty, first_row, server_parts, check_keys, find_row, client_row,
}
use mesh_manager.Api.Accepted.{
  Usable, check_address-next, server_parts-next, joined_parts, client_tunnel, Usable-row, returned,
}

-- Rows as they stand in a table: their ids are not 0.
abbrev pub HasId : Tunnel → Type 0
HasId r = 0 < r.id

-- Where a test selects no row, no row passes it.
none_selected :
    (p : Tunnel → Bool) (rs : List Tunnel) → select p rs ≡ [] → All (λ r. p r ≡ false) rs
none_selected p [] h = tt
none_selected p (r ∷ rs) h = elim (Bool-cases (p r)) [
  | inl e ↦ ground arith
  | inr e ↦ (e, none_selected p rs (ground arith))
]

-- A first row without an id is no row of the table.
first_row_none :
    (p : Tunnel → Bool) (rs : List Tunnel)
    → All HasId rs
    → not ((first_row no_tunnel (select p rs)).id == 0) ≡ false
    → All (λ r. p r ≡ false) rs
first_row_none p [] h e = tt
first_row_none p (r ∷ rs) (i, h) e = elim (Bool-cases (p r)) [
  | inl q ↦ ground arith
  | inr q ↦ (q, first_row_none p rs h (ground arith))
]

module _ (s : TunnelStore) (w : Outside) (c : Config) where
  open s use {Db, query, rows, query-rows}

  pub find_row-next :
      (p : Tunnel → Bool) (site site' : Site Db) (row : Tunnel)
      → find_row s w c p site ≡ next site' row
      → row ≡ first_row no_tunnel (select p (rows site.db))
  unfolding find_row
  find_row-next p site site' row e = elim (Option-cases (query site.db p)) [
    | inl q ↦ ground arith
    | inr (xs, q) ↦ ground (arith, query-rows site.db p xs q)
  ]

  -- No row has the address.
  unused_ip :
      (text : Bytes) (site : Site Db) (twin : Tunnel)
      → All HasId (rows site.db)
      → find_row s w c (λ t. equal t.ip text) site ≡ next site twin
      → not (twin.id == 0) ≡ false
      → All (λ r. r.ip ≢ text) (rows site.db)
  unused_ip text site twin ids e free =
      All-map (λ r differs same. ground (arith, (equal_iff r.ip text).1 same)) (rows site.db)
        (first_row_none (λ t. equal t.ip text) (rows site.db) ids
          (rw (← find_row-next _ site site twin e) free))

  -- What a client's request has passed when its row is built.
  pub record Passed (json : CreateTunnel) (site : Site Db) (t : Tunnel) : Type 0 where
    moved : CreateTunnel
    twin : Tunnel
    parts_moved : server_parts json site ≡ next site moved
    address_checked : check_address w moved.ip site ≡ next site tt
    server_checked : check_server_address w moved.hostname site ≡ next site tt
    twin_found : find_row s w c (λ t. equal t.ip moved.ip) site ≡ next site twin
    no_twin : not (twin.id == 0) ≡ false
    keys_checked :
        (if moved.wireguard then check_keys w moved.password else skip) site ≡ next site tt
    row_is : t ≡ client_tunnel moved

  pub client_row_passes :
      (json : CreateTunnel) (site site' : Site Db) (t : Tunnel)
      → client_row s w c json site ≡ next site' t
      → Passed json site t
  unfolding client_row
  client_row_passes json site site' t e =
      let (_, _, e1) =
        check-next (refuse (empty json.ip) _) _ site site' t (Checks-refuse _ _ site) e in
      let (moved, m, e2) =
        check-next (server_parts json) _ site site' t (Checks-server_parts json site) e1 in
      let (_, a, e3) =
        check-next (check_address w moved.ip) _ site site' t (Checks-check_address w moved.ip site)
          e2 in
      let (_, b, e4) =
        check-next (check_server_address w moved.hostname) _ site site' t
          (Checks-check_server_address w moved.hostname site) e3 in
      let (twin, f, e5) =
        check-next (find_row s w c (λ t. equal t.ip moved.ip)) _ site site' t
          (Checks-find_row s w c _ site) e4 in
      let (_, g, e6) =
        check-next (refuse (not (twin.id == 0)) _) _ site site' t (Checks-refuse _ _ site) e5 in
      let (_, k, e7) =
        check-next (if moved.wireguard then check_keys w moved.password else skip) _ site site' t
          (Checks-when moved.wireguard (check_keys w moved.password) site
            (Checks-check_keys w moved.password site))
          e6 in
      record {
        moved = moved;
        twin = twin;
        parts_moved = m;
        address_checked = a;
        server_checked = b;
        twin_found = f;
        no_twin = refuse-next _ _ site site tt g;
        keys_checked = k;
        row_is = sym (returned site site' _ t e7);
      }

  pub Passed-Usable :
      (json : CreateTunnel) (site : Site Db) (t : Tunnel)
      → json.wireguard ≡ true
      → Passed json site t
      → Usable w t × (t.is_wireguard ≡ true) × (t.client ≡ json.client)
  Passed-Usable json site t wg p =
      let (q, is, o0, low, high) = check_address-next w p.moved.ip site site tt p.address_checked in
      let (address, port, plain, parts, moved_is) =
        server_parts-next w json p.moved site site wg p.parts_moved in
      let parts' = joined_parts json.hostname json.ip address port plain parts in
      let hostname_is : p.moved.hostname ≡ json.hostname ++ (b':' ∷ port) =
        ap (λ m. m.hostname) moved_is in
      let wireguard_is : p.moved.wireguard ≡ true = ap (λ m. m.wireguard) moved_is ∙ wg in
      let client_is : p.moved.client ≡ json.client = ap (λ m. m.client) moved_is in
      let keyed : check_keys w p.moved.password site ≡ next site tt =
        subst
          (λ (b : Bool). (if b then check_keys w p.moved.password else skip) site ≡ next site tt)
          wireguard_is p.keys_checked in
      (
        subst (Usable w) (sym p.row_is) (
            Usable-row w p.moved q json.hostname port site tt tt is o0 low high
              (ap (split b':') hostname_is ∙ parts') p.server_checked keyed),
        ap (λ t. t.is_wireguard) p.row_is ∙ wireguard_is,
        ap (λ t. t.client) p.row_is ∙ client_is,
      )

  pub Passed-unused :
      (json : CreateTunnel) (site : Site Db) (t : Tunnel)
      → All HasId (rows site.db)
      → Passed json site t
      → All (λ r. r.ip ≢ t.ip) (rows site.db)
  Passed-unused json site t ids p =
      subst (λ text. All (λ r. r.ip ≢ text) (rows site.db)) (sym (ap (λ t. t.ip) p.row_is))
        (unused_ip p.moved.ip site p.twin ids p.twin_found p.no_twin)
