-- ===== src/Api/Remove.antt =====
-- internal/server/api/controllers/v1/tunnels.go, `DELETETunnel`.
use mesh_manager.Common.{ℕ, not, none, some, Bytes, parse_uint}
use mesh_manager.Models.{
  Tunnel, TunnelStore, interface_name, find_tunnel_by_id, delete_tunnel, First, found, not_found,
  failed,
}
use mesh_manager.Config.{Config}
use mesh_manager.Api.{
  remove_peer, remove_babel_tunnel, Outside, Site, tunnel_id_invalid, tunnel_does_not_exist,
  error_getting_tunnel, error_removing_peer, error_removing_babel, error_deleting_tunnel,
  tunnel_deleted, next, Handler, ◌>>=◌, ◌>>◌, return, answer, refuse, require, perform,
  refresh_olsr, update_babel, reload_dns,
}
use mesh_manager.Api.Create.{id_exists}

module _ {S : Type 0} where
  abbrev pub require_row : First Tunnel → Handler S Tunnel
  require_row (found t) = return t
  require_row not_found = answer 500 error_getting_tunnel
  require_row failed = answer 500 error_getting_tunnel

module _ (s : TunnelStore) (w : Outside) (c : Config) where
  open s use {Db}

  unfoldable pub row_of : ℕ → Handler (Site Db) Tunnel
  row_of i site = require_row (find_tunnel_by_id s site.db i) site

  -- The row that is to be deleted; ids have 32 bits.
  unfoldable pub doomed_row : Bytes → Handler (Site Db) (ℕ × Tunnel)
  unfolding id_exists row_of
  doomed_row text = do
    i ← require 400 (parse_uint 4294967295 text) tunnel_id_invalid
    exists ← id_exists s i
    refuse (not exists) tunnel_does_not_exist
    row ← row_of i
    return (i, row)

  unfoldable pub delete_row : ℕ → Handler (Site Db) (Unit {0})
  delete_row i site = elim (delete_tunnel s site.db i) [
    | none ↦ answer 500 error_deleting_tunnel site
    | some db ↦ next (record site { db = db }) tt
  ]

  unfoldable pub remove_tunnel : Bytes → Handler (Site Db) (Unit {0})
  unfolding doomed_row delete_row perform refresh_olsr update_babel reload_dns
  remove_tunnel text = do
    (i, row) ← doomed_row text
    delete_row i
    perform w (remove_peer row) error_removing_peer
    refresh_olsr w c
    update_babel w c (remove_babel_tunnel (interface_name row)) error_removing_babel
    reload_dns w
    answer 200 tunnel_deleted
