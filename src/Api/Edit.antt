-- ===== src/Api/Edit.antt =====
-- internal/server/api/controllers/v1/tunnels.go, `PATCHTunnel`.
use mesh_manager.Common.{
  ℕ, Bool, true, not, ◌&&◌, Option, none, some, ◌==◌, if◌then◌else◌, Bytes, equal, to_upper,
}
use mesh_manager.Models.{Tunnel, TunnelStore}
use mesh_manager.Config.{Config}
use mesh_manager.Api.{
  remove_peer, Outside, Site, json_invalid, tunnel_does_not_exist, ip_empty, ip_taken,
  error_updating_tunnel, error_saving_tunnel, error_adding_peer, type_change_not_allowed,
  tunnel_updated, next, Handler, ◌>>=◌, ◌>>◌, return, skip, answer, refuse, perform, check_address,
  check_server_address, add_enabled_peer, refresh_olsr, reload_dns,
}
use mesh_manager.Api.Create.{id_exists, empty, same_flag, find_row}

pub record EditTunnel : Type 0 where
  pub id : ℕ
  pub enabled : Bool
  pub wireguard : Bool
  pub hostname : Bytes
  pub password : Bytes
  pub ip : Bytes

module _ (s : TunnelStore) (w : Outside) (c : Config) where
  open s use {Db, create, save, update}

  -- The row that the new address finds, which is the zero row if there is none.
  unfoldable pub matched_row : EditTunnel → Handler (Site Db) Tunnel
  unfolding id_exists check_address check_server_address find_row
  matched_row json = do
    exists ← id_exists s json.id
    refuse (not exists) tunnel_does_not_exist
    refuse (empty json.ip) ip_empty
    check_address w json.ip
    check_server_address w (to_upper json.hostname)
    row ← find_row s w c (λ t. equal t.ip json.ip)
    refuse (not (row.id == 0) && not (row.id == json.id)) ip_taken
    return row

  -- `Model(&row).Updates(Tunnel{Enabled: ...})`: an error without an id, and false is not written.
  unfoldable pub update_enabled : ℕ → Bool → Handler (Site Db) (Unit {0})
  update_enabled i enabled site =
      if i == 0
      then answer 500 error_updating_tunnel site
      else elim (update site.db (λ t. t.id == i)
          (λ t. if enabled then record t { enabled = true } else t)) [
            | none ↦ answer 500 error_updating_tunnel site
            | some db ↦ next (record site { db = db }) tt
          ]

  -- `Save(&row)`: a row with no id is created.
  unfoldable pub save_row : Tunnel → Handler (Site Db) Tunnel
  save_row t site =
      if t.id == 0
      then elim (create site.db t) [
        | none ↦ answer 500 error_saving_tunnel site
        | some (db, row) ↦ next (record site { db = db }) row
      ]
      else elim (save site.db t) [
        | none ↦ answer 500 error_saving_tunnel site
        | some db ↦ next (record site { db = db }) t
      ]

  abbrev pub edited : EditTunnel → Tunnel → Tunnel
  edited json t = record t {
    hostname = to_upper json.hostname;
    password = json.password;
    ip = json.ip;
    enabled = json.enabled;
  }

  unfoldable pub write_row : EditTunnel → Tunnel → Handler (Site Db) Tunnel
  unfolding update_enabled save_row
  write_row json original = do
    if same_flag original.enabled json.enabled
        then skip
        else update_enabled original.id json.enabled
    if same_flag original.is_wireguard json.wireguard
        then skip
        else answer 500 type_change_not_allowed
    save_row (edited json original)

  unfoldable pub patch_tunnel : Option EditTunnel → Handler (Site Db) (Unit {0})
  unfolding matched_row write_row perform add_enabled_peer refresh_olsr reload_dns
  patch_tunnel none = answer 400 json_invalid
  patch_tunnel (some json) = do
    original ← matched_row json
    row ← write_row json original
    perform w (remove_peer original) error_adding_peer
    add_enabled_peer w row
    refresh_olsr w c
    reload_dns w
    answer 200 tunnel_updated
