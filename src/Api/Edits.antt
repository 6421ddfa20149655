-- ===== src/Api/Edits.antt =====
-- internal/server/api/controllers/v1/tunnels.go: an edit that gives a tunnel a new address.
use mesh_manager.Common.{
  ◌≡◌, ◌≢◌, refl, ap, ◌∙◌, inl, inr, true, not, ◌&&◌, List, [], ◌∷◌, some, ◌==◌, equal, equal_iff,
  to_upper, select, All, arith, Bool-cases,
}
use mesh_manager.Models.{Tunnel, TunnelStore, no_tunnel}
use mesh_manager.Config.{Config}
use mesh_manager.Api.{
  Outside, Site, Handled, next, replied, panicked, Handler, ◌>>=◌, ◌>>◌, answer, refuse,
  check_address, check_server_address, remove_peer, error_adding_peer, tunnel_updated, perform,
  add_enabled_peer, refresh_olsr, reload_dns,
}
use mesh_manager.Api.Create.{empty, first_row, id_exists, find_row}
use mesh_manager.Api.Edit.{EditTunnel, matched_row, update_enabled, write_row, patch_tunnel}
use mesh_manager.Api.Checks.{
  Checks, Checks-refuse, Checks-check_address, Checks-check_server_address,
}
use mesh_manager.Api.Requests.{Checks-find_row, Checks-id_exists, Checks-matched_row}
use mesh_manager.Api.Results.{check-next}
use mesh_manager.Api.Passed.{find_row-next}
use mesh_manager.Api.Keeps.{site_of, NotOk}

-- No row has the address, so none is selected.
none_with_ip :
    (text : _) (rs : List Tunnel)
    → All (λ r. r.ip ≢ text) rs
    → select (λ t. equal t.ip text) rs ≡ []
none_with_ip text [] h = refl
none_with_ip text (r ∷ rs) (differs, h) = elim (Bool-cases (equal r.ip text)) [
  | inl e ↦ absurd (differs ((equal_iff r.ip text).0 e))
  | inr e ↦ rw e (none_with_ip text rs h)
]

-- It ends at once, with the site as it was and not in `200 OK`.
abbrev Stops : {S A : Type 0} → S → Handled S A → Type 0
Stops s (next s' a) = ⊥
Stops s (replied s' r) = (s' ≡ s) × (r.status ≢ 200)
Stops s (panicked s') = s' ≡ s

module _ {S : Type 0} where
  Stops-after :
      {A B : Type 0} (h : Handled S A) (f : A → Handler S B) (s : S)
      → Stops s h
      → Stops s
          (elim h [ next s' a ↦ f a s' | replied s' r ↦ replied s' r | panicked s' ↦ panicked s' ])
  Stops-after (next s' a) f s p = absurd p
  Stops-after (replied s' r) f s p = p
  Stops-after (panicked s') f s p = p

  stopped_so : {A : Type 0} (s : S) (h : Handled S A) → Stops s h → (site_of h ≡ s) × NotOk h
  stopped_so s (next s' a) p = absurd p
  stopped_so s (replied s' r) p = p
  stopped_so s (panicked s') p = (p, tt)

module _ (s : TunnelStore) (w : Outside) (c : Config) where
  open s use {Db, rows}

  kept_row : (row t : Tunnel) (site site' : Site Db) → next site row ≡ next site' t → t ≡ row
  kept_row row t site site' e = cc

  matched_row_unused :
      (json : EditTunnel) (site site' : Site Db) (t : Tunnel)
      → All (λ r. r.ip ≢ json.ip) (rows site.db)
      → matched_row s w c json site ≡ next site' t
      → t ≡ no_tunnel
  unfolding matched_row
  matched_row_unused json site site' t unused e =
      let (exists, _, e1) =
        check-next (id_exists s json.id) _ site site' t (Checks-id_exists s w c json.id site) e in
      let (_, _, e2) =
        check-next (refuse (not exists) _) _ site site' t (Checks-refuse _ _ site) e1 in
      let (_, _, e3) =
        check-next (refuse (empty json.ip) _) _ site site' t (Checks-refuse _ _ site) e2 in
      let (_, _, e4) =
        check-next (check_address w json.ip) _ site site' t (Checks-check_address w json.ip site)
          e3 in
      let (_, _, e5) =
        check-next (check_server_address w (to_upper json.hostname)) _ site site' t
          (Checks-check_server_address w (to_upper json.hostname) site) e4 in
      let (row, f, e6) =
        check-next (find_row s w c (λ t. equal t.ip json.ip)) _ site site' t
          (Checks-find_row s w c _ site) e5 in
      let (_, _, e7) =
        check-next (refuse (not (row.id == 0) && not (row.id == json.id)) _) _ site site' t
          (Checks-refuse _ _ site) e6 in
      kept_row row t site site' e7
      ∙ find_row-next s w c _ site site row f
      ∙ ap (first_row no_tunnel) (none_with_ip json.ip (rows site.db) unused)

  -- The row that is written over is no row: its kind is no Wireguard tunnel.
  no_tunnel_written :
      (json : EditTunnel) (site : Site Db)
      → json.wireguard ≡ true
      → Stops site (write_row s w c json no_tunnel site)
  unfolding write_row update_enabled
  no_tunnel_written json site wg = elim (Bool-cases json.enabled) [
    | inl on ↦ rw (wg, on) (refl, omega arith)
    | inr off ↦ rw (wg, off) (refl, omega arith)
  ]

  matched_row-Stops :
      (json : EditTunnel) (site : Site Db) (h : Handled (Site Db) Tunnel)
      → json.wireguard ≡ true
      → All (λ r. r.ip ≢ json.ip) (rows site.db)
      → Checks site h
      → matched_row s w c json site ≡ h
      → Stops {A = Unit {0}} site (elim h [
        | next s' t ↦
            (write_row s w c json t >>= λ row.
            perform w (remove_peer t) error_adding_peer
            >> (add_enabled_peer w row
                >> (refresh_olsr w c >> (reload_dns w >> answer 200 tunnel_updated))))
              s'
        | replied s' r ↦ replied s' r
        | panicked s' ↦ panicked s'
      ])
  matched_row-Stops json site (next s' t) wg unused same e =
      rw (same, matched_row_unused json site s' t unused e)
        (Stops-after (write_row s w c json no_tunnel site) _ site (no_tunnel_written json site wg))
  matched_row-Stops json site (replied s' r) wg unused same e = same
  matched_row-Stops json site (panicked s') wg unused same e = same

  -- An edit of a Wireguard tunnel that gives an address which no row of the table has changes
  -- nothing and does not end in `200 OK`.
  pub patch_tunnel_unused :
      (json : EditTunnel) (site : Site Db)
      → json.wireguard ≡ true
      → All (λ r. r.ip ≢ json.ip) (rows site.db)
      → (site_of (patch_tunnel s w c (some json) site) ≡ site)
        × NotOk (patch_tunnel s w c (some json) site)
  unfolding patch_tunnel
  patch_tunnel_unused json site wg unused = stopped_so site _ (
      matched_row-Stops json site (matched_row s w c json site) wg unused
        (Checks-matched_row s w c json site) refl)
