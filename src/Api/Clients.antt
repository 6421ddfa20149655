-- ===== src/Api/Clients.antt =====
-- internal/server/api/controllers/v1/tunnels.go: how `POSTTunnel` ends for a client's tunnel.
use mesh_manager.Common.{
  ◌≡◌, ◌≢◌, refl, sym, ap, ◌∙◌, ◌⊎◌, inl, inr, Bool, true, false, not, ◌&&◌, ◌||◌, List, [], ◌∷◌,
  ◌++◌, Option, none, some, if◌then◌else◌, to_upper, arith, All, subst,
}
use mesh_manager.Models.{Tunnel, TunnelStore}
use mesh_manager.Config.{Config}
use mesh_manager.Api.{
  Outside, Site, tunnel_created, Handled, next, replied, panicked, Handler, ◌>>=◌, ◌>>◌, return,
  answer, refuse, add_enabled_peer,
}
use mesh_manager.Api.Create.{
  CreateTunnel, empty, create_row, created, install, client_row, server_row, requested_row,
  announce, post_tunnel,
}
use mesh_manager.Api.Checks.{Checks, Checks-refuse}
use mesh_manager.Api.Requests.{Checks-requested_row}
use mesh_manager.Api.Results.{check-next, refuse-next}
use mesh_manager.Api.Accepted.{Usable}
use mesh_manager.Api.Passed.{HasId, Passed, client_row_passes, Passed-Usable, Passed-unused}
use mesh_manager.Api.Keeps.{
  site_of, db_of, NotOk, Keeps, Keeps->>=, Keeps-add_enabled_peer, Keeps-announce,
}

affirmed : (b : Bool) → not b ≡ false → b ≡ true
affirmed b h = ground arith

module _ (s : TunnelStore) (w : Outside) (c : Config) where
  open s use {Db, rows, create, create-rows}

  -- The table has one row more: a usable one, for the client that the request names, whose address
  -- no other row has.
  pub record Added (json : CreateTunnel) (before after : List Tunnel) : Type 0 where
    pub row : Tunnel
    pub row_added : after ≡ before ++ row ∷ []
    pub row-Usable : Usable w row
    pub row_enabled : row.enabled ≡ true
    pub row_wireguard : row.is_wireguard ≡ true
    pub row_client : row.client ≡ json.client
    pub row-HasId : HasId row
    pub address_unused : All (λ r. r.ip ≢ row.ip) before

  passes :
      (json : CreateTunnel) (site site' : Site Db) (t : Tunnel)
      → json.client ≡ true
      → requested_row s w c (some json) site ≡ next site' t
      → (json.wireguard ≡ true) × Passed s w c json site t
  unfolding requested_row
  passes json site site' t client e =
      let (_, _, e1) =
        check-next (refuse ((not json.wireguard || json.client) && empty json.password) _) _ site
          site' t (Checks-refuse _ _ site) e in
      let (_, a, e2) =
        check-next (refuse (not json.wireguard) _) _ site site' t (Checks-refuse _ _ site) e1 in
      let wireguard : json.wireguard ≡ true =
        affirmed json.wireguard (refuse-next _ _ site site tt a) in
      (
        wireguard,
        client_row_passes s w c json site site' t (
            subst
              (λ (b : Bool).
                (if b
                    then client_row s w c json
                    else server_row s w c (record json { hostname = to_upper json.hostname }))
                  site
                ≡ next site' t)
              client e2),
      )

  -- A row that is created for a row that has passed.
  created-Added :
      (json : CreateTunnel) (site : Site Db) (t row : Tunnel) (d : Db)
      → All HasId (rows site.db)
      → (json.wireguard ≡ true) × Passed s w c json site t
      → create site.db t ≡ some (d, row)
      → Added json (rows site.db) (rows d)
  created-Added json site t row d ids (wg, p) e =
      let (i, positive, _, is, added) = create-rows site.db d t row e in
      let (u, is_wg, is_client) = Passed-Usable s w c json site t wg p in
      let created : Added json (rows site.db)
          (rows site.db ++ record t { id = i; enabled = true } ∷ []) =
        record {
          row = record t { id = i; enabled = true };
          row_added = refl;
          row-Usable = record {
            address = u.address;
            host = u.host;
            port_text = u.port_text;
            port = u.port;
            address_is = u.address_is;
            first_octet = u.first_octet;
            second_low = u.second_low;
            second_high = u.second_high;
            server_parts_are = u.server_parts_are;
            port_is = u.port_is;
            port_low = u.port_low;
            password_length = u.password_length;
            server_key_is = u.server_key_is;
            client_key_is = u.client_key_is;
            client_public_is = u.client_public_is;
          };
          row_enabled = refl;
          row_wireguard = is_wg;
          row_client = is_client;
          row-HasId = positive;
          address_unused = Passed-unused s w c json site t ids p;
        } in
      subst (Added json (rows site.db)) (sym (added ∙ ap (λ r. rows site.db ++ r ∷ []) is)) created

  -- What follows the creation of a row leaves the table alone.
  abbrev rest_of : Tunnel → Handler (Site Db) (Unit {0})
  rest_of row =
      (add_enabled_peer w row >> return row) >>= λ r. announce s w c r >> answer 200 tunnel_created

  Keeps-rest : (row : Tunnel) → Keeps (rest_of row)
  Keeps-rest row =
      Keeps->>= (add_enabled_peer w row >> return row) _
        (Keeps->>= (add_enabled_peer w row) _ (Keeps-add_enabled_peer w c row) λ _ site. refl)
        λ r. Keeps->>= (announce s w c r) _ (Keeps-announce s w c r) λ _ site. refl

  -- A run that changes nothing and does not end in `200 OK`, or that adds a row.
  abbrev pub Ends : CreateTunnel → Site Db → Handled (Site Db) (Unit {0}) → Type 0
  Ends json site h = ((site_of h ≡ site) × NotOk h) ⊎ Added json (rows site.db) (rows (db_of h))

  created-Ends :
      (json : CreateTunnel) (site : Site Db) (t : Tunnel) (o : Option (Db × Tunnel))
      → All HasId (rows site.db)
      → (json.wireguard ≡ true) × Passed s w c json site t
      → create site.db t ≡ o
      → Ends json site (
          ((created s w c o >>= λ row. add_enabled_peer w row >> return row) >>= λ r.
          announce s w c r >> answer 200 tunnel_created)
            site)
  created-Ends json site t none ids p e = inl (refl, omega arith)
  created-Ends json site t (some (d, row)) ids p e = inr (
      subst (λ d'. Added json (rows site.db) (rows d'))
        (sym (Keeps-rest row (record site { db = d }))) (created-Added json site t row d ids p e))

  requested-Ends :
      (json : CreateTunnel) (site : Site Db) (h : Handled (Site Db) Tunnel)
      → All HasId (rows site.db)
      → json.client ≡ true
      → Checks site h
      → requested_row s w c (some json) site ≡ h
      → Ends json site (elim h [
        | next s' t ↦ (install s w c t >>= λ r. announce s w c r >> answer 200 tunnel_created) s'
        | replied s' r ↦ replied s' r
        | panicked s' ↦ panicked s'
      ])
  unfolding install create_row
  requested-Ends json site (next s' t) ids client same e =
      rw same
        (created-Ends json site t (create site.db t) ids (passes json site s' t client e) refl)
  requested-Ends json site (replied s' r) ids client same e = inl same
  requested-Ends json site (panicked s') ids client same e = inl (same, tt)

  -- Over a table whose rows have ids, a request for a client's tunnel changes nothing and does not
  -- end in `200 OK`; or it adds one row to the table, with an id and an address that no other row
  -- has, for a tunnel that the Wireguard manager can bring up: its address is IPv4 and in
  -- 172.16.0.0/12, its hostname is a name and a port, and its password is three keys. That holds
  -- when the request fails after the row is created, too.
  pub post_tunnel_client :
      (json : CreateTunnel) (site : Site Db)
      → All HasId (rows site.db)
      → json.client ≡ true
      → Ends json site (post_tunnel s w c (some json) site)
  unfolding post_tunnel
  post_tunnel_client json site ids client =
      requested-Ends json site (requested_row s w c (some json) site) ids client
        (Checks-requested_row s w c (some json) site) refl
