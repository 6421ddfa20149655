-- ===== src/Api/Requests.antt =====
-- internal/server/api/controllers/v1/tunnels.go: what a handler reads before it writes.
use mesh_manager.Common.{
  ℕ, refl, Bool, Option, none, some, if◌then◌else◌, Bytes, arith, ◌==◌, not, ◌&&◌, ◌||◌, parse_uint,
  to_upper,
}
use mesh_manager.Models.{
  Tunnel, TunnelStore, First, found, not_found, failed, tunnel_id_exists, find_tunnel_by_id,
}
use mesh_manager.Models.NextIp.{get_next_wireguard_ip}
use mesh_manager.Models.NextPort.{get_next_wireguard_port}
use mesh_manager.Config.{Config}
use mesh_manager.Api.{Outside, Site, skip, refuse, require, check_address, check_server_address}
use mesh_manager.Api.Create.{
  CreateTunnel, hostname_fault, check_hostname, server_parts, check_keys, find_row, next_ip,
  next_port, id_exists, server_row, client_row, requested_row, empty,
}
use mesh_manager.Api.Edit.{EditTunnel, matched_row}
use mesh_manager.Api.Remove.{require_row, doomed_row, row_of}
use mesh_manager.Api.Checks.{
  Checks, Checks->>=, Checks-when, Checks-refuse, Checks-require, Checks-from,
  Checks-check_hostname, Checks-check_address, Checks-check_server_address, Checks-server_parts,
  Checks-check_keys,
}

module _ (s : TunnelStore) (w : Outside) (c : Config) where
  open s use {Db, query}

  pub Checks-find_row : (p : Tunnel → Bool) (site : Site Db) → Checks site (find_row s w c p site)
  unfolding find_row
  Checks-find_row p site = ground arith

  pub Checks-next_ip : (site : Site Db) → Checks site (next_ip s w c site)
  unfolding next_ip
  Checks-next_ip site = Checks-from (get_next_wireguard_ip s w.parse_v6 site.db c) _ site

  pub Checks-next_port : (site : Site Db) → Checks site (next_port s w c site)
  unfolding next_port
  Checks-next_port site = Checks-from (get_next_wireguard_port s site.db c) _ site

  pub Checks-id_exists : (i : ℕ) (site : Site Db) → Checks site (id_exists s i site)
  unfolding id_exists
  Checks-id_exists i site = Checks-require 500 (tunnel_id_exists s site.db i) _ site (omega arith)

  pub Checks-server_row :
      (json : CreateTunnel) (site : Site Db) → Checks site (server_row s w c json site)
  unfolding server_row
  Checks-server_row json site =
      Checks->>= (check_hostname (hostname_fault json.hostname)) _ site
        (Checks-check_hostname (hostname_fault json.hostname) site)
        λ _. Checks->>= (find_row s w c _) _ site (Checks-find_row _ site) λ twin.
          Checks->>= (refuse (not (twin.id == 0)) _) _ site (Checks-refuse _ _ site) λ _.
            Checks->>= (next_ip s w c) _ site (Checks-next_ip site) λ ip.
              Checks->>= (next_port s w c) _ site (Checks-next_port site) λ port.
                Checks->>= (require 500 w.server_key _) _ site
                  (Checks-require 500 w.server_key _ site (omega arith))
                  λ server.
                    Checks->>= (require 500 w.client_key _) _ site
                      (Checks-require 500 w.client_key _ site (omega arith)) λ client. refl

  pub Checks-client_row :
      (json : CreateTunnel) (site : Site Db) → Checks site (client_row s w c json site)
  unfolding client_row
  Checks-client_row json site =
      Checks->>= (refuse (empty json.ip) _) _ site (Checks-refuse _ _ site) λ _.
        Checks->>= (server_parts json) _ site (Checks-server_parts json site) λ moved.
          Checks->>= (check_address w moved.ip) _ site (Checks-check_address w moved.ip site) λ _.
            Checks->>= (check_server_address w moved.hostname) _ site
              (Checks-check_server_address w moved.hostname site)
              λ _. Checks->>= (find_row s w c _) _ site (Checks-find_row _ site) λ twin.
                Checks->>= (refuse (not (twin.id == 0)) _) _ site (Checks-refuse _ _ site) λ _.
                  Checks->>= (if moved.wireguard then check_keys w moved.password else skip) _ site
                    (Checks-when moved.wireguard (check_keys w moved.password) site
                      (Checks-check_keys w moved.password site))
                    λ _. refl

  pub Checks-requested_row :
      (request : Option CreateTunnel) (site : Site Db)
      → Checks site (requested_row s w c request site)
  unfolding requested_row
  Checks-requested_row none site = (refl, omega arith)
  Checks-requested_row (some json) site =
      Checks->>= (refuse ((not json.wireguard || json.client) && empty json.password) _) _ site
        (Checks-refuse _ _ site)
        λ _. Checks->>= (refuse (not json.wireguard) _) _ site (Checks-refuse _ _ site) λ _.
          ground (
            arith,
            Checks-client_row json site,
            Checks-server_row (record json { hostname = to_upper json.hostname }) site,
          )

  pub Checks-matched_row :
      (json : EditTunnel) (site : Site Db) → Checks site (matched_row s w c json site)
  unfolding matched_row
  Checks-matched_row json site =
      Checks->>= (id_exists s json.id) _ site (Checks-id_exists json.id site) λ exists.
        Checks->>= (refuse (not exists) _) _ site (Checks-refuse _ _ site) λ _.
          Checks->>= (refuse (empty json.ip) _) _ site (Checks-refuse _ _ site) λ _.
            Checks->>= (check_address w json.ip) _ site (Checks-check_address w json.ip site) λ _.
              Checks->>= (check_server_address w (to_upper json.hostname)) _ site
                (Checks-check_server_address w (to_upper json.hostname) site)
                λ _. Checks->>= (find_row s w c _) _ site (Checks-find_row _ site) λ row.
                  Checks->>= (refuse (not (row.id == 0) && not (row.id == json.id)) _) _ site
                    (Checks-refuse _ _ site) λ _. refl

  pub Checks-require_row : (r : First Tunnel) (site : Site Db) → Checks site (require_row r site)
  Checks-require_row (found t) site = refl
  Checks-require_row not_found site = (refl, omega arith)
  Checks-require_row failed site = (refl, omega arith)

  pub Checks-row_of : (i : ℕ) (site : Site Db) → Checks site (row_of s w c i site)
  unfolding row_of
  Checks-row_of i site = Checks-require_row (find_tunnel_by_id s site.db i) site

  pub Checks-doomed_row : (text : Bytes) (site : Site Db) → Checks site (doomed_row s w c text site)
  unfolding doomed_row
  Checks-doomed_row text site =
      Checks->>= (require 400 (parse_uint 4294967295 text) _) _ site
        (Checks-require 400 _ _ site (omega arith))
        λ i. Checks->>= (id_exists s i) _ site (Checks-id_exists i site) λ exists.
          Checks->>= (refuse (not exists) _) _ site (Checks-refuse _ _ site)
            λ _. Checks->>= (row_of s w c i) _ site (Checks-row_of i site) λ row. refl
