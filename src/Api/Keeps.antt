-- ===== src/Api/Keeps.antt =====
-- internal/server/api/controllers/v1/tunnels.go: the steps that leave the table of tunnels alone.
use mesh_manager.Common.{◌≡◌, ◌≢◌, refl, ◌∙◌, Bool, true, false, if◌then◌else◌, arith}
use mesh_manager.Models.{Tunnel, TunnelStore}
use mesh_manager.Config.{Config}
use mesh_manager.Api.{
  Effect, Outside, Site, Message, Handled, next, replied, panicked, Handler, ◌>>=◌, skip, perform,
  add_enabled_peer, refresh_olsr, update_babel, reload_dns, with_service, generate_olsr,
  olsr_service, babel_service, dnsmasq_service, Service,
}
use mesh_manager.Api.Create.{announce}

-- The site after a run, and whether the run ends in another reply than `200 OK`.
abbrev pub site_of : {S A : Type 0} → Handled S A → S
site_of (next s a) = s
site_of (replied s r) = s
site_of (panicked s) = s

abbrev pub db_of : {Db A : Type 0} → Handled (Site Db) A → Db
db_of (next s a) = s.db
db_of (replied s r) = s.db
db_of (panicked s) = s.db

abbrev pub NotOk : {S A : Type 0} → Handled S A → Type 0
NotOk (next s a) = Unit
NotOk (replied s r) = r.status ≢ 200
NotOk (panicked s) = Unit

module _ {Db : Type 0} where
  -- A step that leaves the table alone.
  abbrev pub Keeps : {A : Type 0} → Handler (Site Db) A → Type 0
  Keeps m = (site : Site Db) → db_of (m site) ≡ site.db

  pub Keeps-after :
      {A B : Type 0} (h : Handled (Site Db) A) (f : A → Handler (Site Db) B) (d : Db)
      → db_of h ≡ d
      → ((a : A) → Keeps (f a))
      → db_of
          (elim h [ next s' a ↦ f a s' | replied s' r ↦ replied s' r | panicked s' ↦ panicked s' ])
        ≡ d
  Keeps-after (next s' a) f d p q = q a s' ∙ p
  Keeps-after (replied s' r) f d p q = p
  Keeps-after (panicked s') f d p q = p

  pub Keeps->>= :
      {A B : Type 0} (m : Handler (Site Db) A) (f : A → Handler (Site Db) B)
      → Keeps m
      → ((a : A) → Keeps (f a))
      → Keeps (m >>= f)
  Keeps->>= m f p q site = Keeps-after (m site) f site.db (p site) q

  module _ (w : Outside) (c : Config) where
    pub Keeps-perform : (e : Effect) (m : Message) → Keeps (perform w e m)
    unfolding perform
    Keeps-perform e m site = ground arith

    pub Keeps-with_service : (service : Service) → Keeps (with_service w service)
    Keeps-with_service service site = ground arith

    pub Keeps-add_enabled_peer : (t : Tunnel) → Keeps (add_enabled_peer w t)
    unfolding add_enabled_peer perform
    Keeps-add_enabled_peer t site = ground arith

    pub Keeps-when :
        (b : Bool) (m : Handler (Site Db) (Unit {0})) → Keeps m → Keeps (if b then m else skip)
    Keeps-when true m h = h
    Keeps-when false m h = λ site. refl

    pub Keeps-refresh_olsr : Keeps (refresh_olsr w c)
    unfolding refresh_olsr
    Keeps-refresh_olsr = Keeps-when c.olsr _ (
        Keeps->>= (perform w generate_olsr _) _ (Keeps-perform generate_olsr _) λ _.
          Keeps->>= (with_service w olsr_service) _ (Keeps-with_service olsr_service)
            λ _. Keeps-perform _ _)

    pub Keeps-update_babel : (e : Effect) (m : Message) → Keeps (update_babel w c e m)
    unfolding update_babel
    Keeps-update_babel e m = Keeps-when c.babel.enabled _ (
        Keeps->>= (with_service w babel_service) _ (Keeps-with_service babel_service)
          λ _. Keeps-perform e m)

    pub Keeps-reload_dns : Keeps (reload_dns w)
    unfolding reload_dns
    Keeps-reload_dns =
        Keeps->>= (with_service w dnsmasq_service) _ (Keeps-with_service dnsmasq_service)
          λ _. Keeps-perform _ _

module _ (s : TunnelStore) (w : Outside) (c : Config) where
  open s use {Db}

  pub Keeps-announce : (row : Tunnel) → Keeps (announce s w c row)
  unfolding announce
  Keeps-announce row =
      Keeps->>= (refresh_olsr w c) _ (Keeps-refresh_olsr w c) λ _.
        Keeps->>= (update_babel w c _ _) _ (Keeps-update_babel w c _ _) λ _. Keeps-reload_dns w c
