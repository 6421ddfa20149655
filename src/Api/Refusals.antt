-- ===== src/Api/Refusals.antt =====
-- internal/server/api/controllers/v1/tunnels.go: what the handlers have changed when they refuse.
use mesh_manager.Common.{
  ℕ, ◌≡◌, ◌≢◌, refl, ◌⊎◌, inl, inr, Option, none, some, if◌then◌else◌, Bytes, arith, Bool-cases,
}
use mesh_manager.Models.{Tunnel, TunnelStore}
use mesh_manager.Config.{Config}
use mesh_manager.Api.{
  Outside, Site, Message, Effect, Handled, next, replied, panicked, Handler, ◌>>=◌, skip, answer,
  perform, add_enabled_peer, refresh_olsr, update_babel, reload_dns, add_peer, remove_peer,
  generate_olsr, Service, olsr_service, babel_service, dnsmasq_service, with_service,
  type_change_not_allowed,
}
use mesh_manager.Api.Create.{
  CreateTunnel, create_row, install, requested_row, announce, post_tunnel, same_flag,
}
use mesh_manager.Api.Edit.{
  EditTunnel, matched_row, update_enabled, save_row, write_row, patch_tunnel,
}
use mesh_manager.Api.Remove.{doomed_row, delete_row, remove_tunnel}
use mesh_manager.Api.Checks.{Checks}
use mesh_manager.Api.Requests.{Checks-requested_row, Checks-matched_row, Checks-doomed_row}

-- It does not end in a refusal.
abbrev pub Acts : {S A : Type 0} → Handled S A → Type 0
Acts (next s' a) = Unit
Acts (replied s' r) = r.status ≢ 400
Acts (panicked s') = Unit

-- A refusal leaves the site as it was.
abbrev pub Refuses : {S A : Type 0} → S → Handled S A → Type 0
Refuses s (next s' a) = Unit
Refuses s (replied s' r) = (r.status ≢ 400) ⊎ (s' ≡ s)
Refuses s (panicked s') = Unit

module _ {S : Type 0} where
  Acts-after :
      {A B : Type 0} (h : Handled S A) (f : A → Handler S B)
      → Acts h
      → ((a : A) (s : S) → Acts (f a s))
      → Acts
          (elim h [ next s' a ↦ f a s' | replied s' r ↦ replied s' r | panicked s' ↦ panicked s' ])
  Acts-after (next s' a) f p q = q a s'
  Acts-after (replied s' r) f p q = p
  Acts-after (panicked s') f p q = p

  Acts->>= :
      {A B : Type 0} (m : Handler S A) (f : A → Handler S B) (s : S)
      → Acts (m s)
      → ((a : A) (s' : S) → Acts (f a s'))
      → Acts ((m >>= f) s)
  Acts->>= m f s p q = Acts-after (m s) f p q

  Acts-Refuses : {A : Type 0} (s : S) (h : Handled S A) → Acts h → Refuses s h
  Acts-Refuses s (next s' a) p = tt
  Acts-Refuses s (replied s' r) p = inl p
  Acts-Refuses s (panicked s') p = tt

  Refuses-after :
      {A B : Type 0} (h : Handled S A) (f : A → Handler S B) (s : S)
      → Checks s h
      → ((a : A) → Acts (f a s))
      → Refuses s
          (elim h [ next s' a ↦ f a s' | replied s' r ↦ replied s' r | panicked s' ↦ panicked s' ])
  Refuses-after (next s' a) f s p q = rw p (Acts-Refuses s (f a s) (q a))
  Refuses-after (replied s' r) f s p q = inr p.0
  Refuses-after (panicked s') f s p q = tt

  -- Checks, then steps that do not refuse.
  Refuses->>= :
      {A B : Type 0} (m : Handler S A) (f : A → Handler S B) (s : S)
      → Checks s (m s)
      → ((a : A) → Acts (f a s))
      → Refuses s ((m >>= f) s)
  Refuses->>= m f s p q = Refuses-after (m s) f s p q

module _ (s : TunnelStore) (w : Outside) (c : Config) where
  open s use {Db}

  Acts-perform : (e : Effect) (m : Message) (site : Site Db) → Acts (perform w e m site)
  unfolding perform
  Acts-perform e m site = ground arith

  Acts-add_enabled_peer : (t : Tunnel) (site : Site Db) → Acts (add_enabled_peer w t site)
  unfolding add_enabled_peer
  Acts-add_enabled_peer t site = ground (arith, Acts-perform (add_peer t) _ site)

  Acts-with_service : (service : Service) (site : Site Db) → Acts (with_service w service site)
  Acts-with_service service site = ground arith

  Acts-refresh_olsr : (site : Site Db) → Acts (refresh_olsr w c site)
  unfolding refresh_olsr
  Acts-refresh_olsr site = elim (Bool-cases c.olsr) [
    | inl e ↦ rw e (
        Acts->>= (perform w generate_olsr _) _ site (Acts-perform _ _ site) λ _ site'.
          Acts->>= (with_service w olsr_service) _ site' (Acts-with_service olsr_service site')
            λ _ site''. Acts-perform _ _ site'')
    | inr e ↦ rw e tt
  ]

  Acts-update_babel : (e : Effect) (m : Message) (site : Site Db) → Acts (update_babel w c e m site)
  unfolding update_babel
  Acts-update_babel e m site = elim (Bool-cases c.babel.enabled) [
    | inl on ↦ rw on (
        Acts->>= (with_service w babel_service) _ site (Acts-with_service babel_service site)
          λ _ site'. Acts-perform e m site')
    | inr off ↦ rw off tt
  ]

  Acts-reload_dns : (site : Site Db) → Acts (reload_dns w site)
  unfolding reload_dns
  Acts-reload_dns site =
      Acts->>= (with_service w dnsmasq_service) _ site (Acts-with_service dnsmasq_service site)
        λ _ site'. Acts-perform _ _ site'

  Acts-install : (t : Tunnel) (site : Site Db) → Acts (install s w c t site)
  unfolding install create_row
  Acts-install t site = Acts->>= (create_row s w c t) _ site (ground arith) λ row site'.
      Acts->>= (add_enabled_peer w row) _ site' (Acts-add_enabled_peer row site') λ _ site''. tt

  Acts-announce : (row : Tunnel) (site : Site Db) → Acts (announce s w c row site)
  unfolding announce
  Acts-announce row site = Acts->>= (refresh_olsr w c) _ site (Acts-refresh_olsr site) λ _ site'.
      Acts->>= (update_babel w c _ _) _ site' (Acts-update_babel _ _ site')
        λ _ site''. Acts-reload_dns site''

  Acts-write_row :
      (json : EditTunnel) (t : Tunnel) (site : Site Db) → Acts (write_row s w c json t site)
  unfolding write_row update_enabled save_row
  Acts-write_row json t site =
      Acts->>=
        (if same_flag t.enabled json.enabled then skip else update_enabled s w c t.id json.enabled)
        _ site (ground arith)
        λ _ site'.
          Acts->>=
            (if same_flag t.is_wireguard json.wireguard
              then skip
              else answer 500 type_change_not_allowed)
            _ site' (ground arith) λ _ site''. ground arith

  Acts-delete_row : (i : ℕ) (site : Site Db) → Acts (delete_row s w c i site)
  unfolding delete_row
  Acts-delete_row i site = ground arith

  -- A request for a new tunnel that is answered with `400 Bad Request` has changed nothing: neither
  -- the database, nor a peer or a service.
  pub post_tunnel-Refuses :
      (request : Option CreateTunnel) (site : Site Db)
      → Refuses site (post_tunnel s w c request site)
  unfolding post_tunnel
  post_tunnel-Refuses request site =
      Refuses->>= (requested_row s w c request) _ site (Checks-requested_row s w c request site)
        λ t. Acts->>= (install s w c t) _ site (Acts-install t site) λ row site'.
          Acts->>= (announce s w c row) _ site' (Acts-announce row site') λ _ site''. (ground arith)

  -- A request to edit a tunnel that is answered with `400 Bad Request` has changed nothing.
  pub patch_tunnel-Refuses :
      (request : Option EditTunnel) (site : Site Db)
      → Refuses site (patch_tunnel s w c request site)
  unfolding patch_tunnel
  patch_tunnel-Refuses none site = inr refl
  patch_tunnel-Refuses (some json) site =
      Refuses->>= (matched_row s w c json) _ site (Checks-matched_row s w c json site) λ t.
        Acts->>= (write_row s w c json t) _ site (Acts-write_row json t site) λ row site'.
          Acts->>= (perform w (remove_peer t) _) _ site' (Acts-perform _ _ site') λ _ site1.
            Acts->>= (add_enabled_peer w row) _ site1 (Acts-add_enabled_peer row site1) λ _ site2.
              Acts->>= (refresh_olsr w c) _ site2 (Acts-refresh_olsr site2) λ _ site3.
                Acts->>= (reload_dns w) _ site3 (Acts-reload_dns site3) λ _ site4. (ground arith)

  -- A request to delete a tunnel that is answered with `400 Bad Request` has changed nothing.
  pub remove_tunnel-Refuses :
      (text : Bytes) (site : Site Db) → Refuses site (remove_tunnel s w c text site)
  unfolding remove_tunnel
  remove_tunnel-Refuses text site =
      Refuses->>= (doomed_row s w c text) _ site (Checks-doomed_row s w c text site) λ (i, row).
        Acts->>= (delete_row s w c i) _ site (Acts-delete_row i site) λ _ site'.
          Acts->>= (perform w (remove_peer row) _) _ site' (Acts-perform _ _ site') λ _ site1.
            Acts->>= (refresh_olsr w c) _ site1 (Acts-refresh_olsr site1) λ _ site2.
              Acts->>= (update_babel w c _ _) _ site2 (Acts-update_babel _ _ site2) λ _ site3.
                Acts->>= (reload_dns w) _ site3 (Acts-reload_dns site3) λ _ site4. (ground arith)
