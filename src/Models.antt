-- ===== src/Models.antt =====
-- internal/db/models/tunnel.go: the tunnels and the queries over them. `TotalRXMB` and `TotalTXMB`
-- are counted in bytes, that is in units of 2^-20 MB, in which their sums are exact below 2^53.
pub mod NextIp
pub mod NextPort
pub mod Counts
mod Tests
use mesh_manager.Common.{
  ℕ, ◌+◌, ◌<◌, ◌≡◌, Bool, true, false, not, ◌&&◌, ◌||◌, List, [], ◌∷◌, Option, none, some, ltb,
  ◌==◌, if◌then◌else◌, Bytes, codes, equal, itoa, ◌++◌,
}
use mesh_manager.Store.{Keyed, Store}
use mesh_manager.Net.{Ip4, ip4_string}

pub record Tunnel : Type 0 where
  pub id : ℕ
  pub hostname : Bytes
  pub ip : Bytes
  pub password : Bytes
  pub enabled : Bool
  pub active : Bool
  pub client : Bool
  pub tunnel_interface : Bytes
  pub rx_bytes : ℕ
  pub tx_bytes : ℕ
  pub total_rx : ℕ
  pub total_tx : ℕ
  pub rx_bytes_per_sec : ℕ
  pub tx_bytes_per_sec : ℕ
  pub is_wireguard : Bool
  pub wireguard_server_key : Bytes
  pub wireguard_port : ℕ
  pub connection_time : ℕ

-- `var tunnel models.Tunnel`.
abbrev pub no_tunnel : Tunnel
no_tunnel = record {
  id = 0;
  hostname = [];
  ip = [];
  password = [];
  enabled = false;
  active = false;
  client = false;
  tunnel_interface = [];
  rx_bytes = 0;
  tx_bytes = 0;
  total_rx = 0;
  total_tx = 0;
  rx_bytes_per_sec = 0;
  tx_bytes_per_sec = 0;
  is_wireguard = false;
  wireguard_server_key = [];
  wireguard_port = 0;
  connection_time = 0;
}

-- `Create` writes the column's default, true, for an `Enabled` that is not set.
abbrev pub tunnel_keyed : Keyed Tunnel
tunnel_keyed = record { key = λ t. t.id; set_key = λ i t. record t { id = i; enabled = true } }

abbrev pub TunnelStore : Type 1
TunnelStore = Store Tunnel tunnel_keyed

-- `ip.String()` on an IPv4 address or on nil.
abbrev pub ip_text : Option Ip4 → Bytes
ip_text none = codes "<nil>"
ip_text (some q) = ip4_string q

-- What `First` gives: a row, `gorm.ErrRecordNotFound`, or another error.
pub data First (A : Type 0) : Type 0 where
  found : A → First A
  not_found : First A
  failed : First A

abbrev pub first_of : {A : Type 0} → Option (List A) → First A
first_of none = failed
first_of (some []) = not_found
first_of (some (x ∷ xs)) = found x

-- `count > 0, err`.
abbrev pub exists_of : Option ℕ → Option Bool
exists_of none = none
exists_of (some n) = some (ltb 0 n)

-- The Boolean columns that the queries compare.
abbrev pub any_tunnel : Tunnel → Bool
any_tunnel t = true

abbrev pub active_wireguard : Tunnel → Bool
active_wireguard t = t.active && t.is_wireguard

abbrev pub client_wireguard : Tunnel → Bool
client_wireguard t = t.client && t.is_wireguard

abbrev pub server_wireguard : Tunnel → Bool
server_wireguard t = not t.client && t.is_wireguard

module _ (s : TunnelStore) where
  open s use {Db, query, count, remove, update}

  pub tunnel_id_exists : Db → ℕ → Option Bool
  tunnel_id_exists d i = exists_of (count d (λ t. t.id == i))

  unfoldable pub find_tunnel_by_id : Db → ℕ → First Tunnel
  find_tunnel_by_id d i = first_of (query d (λ t. t.id == i))

  unfoldable pub find_tunnel_by_interface : Db → Bytes → First Tunnel
  find_tunnel_by_interface d iface = first_of (query d (λ t. equal t.tunnel_interface iface))

  unfoldable pub find_tunnel_by_ip : Db → Option Ip4 → First Tunnel
  find_tunnel_by_ip d q = first_of (query d (λ t. equal t.ip (ip_text q)))

  pub list_all_tunnels : Db → Option (List Tunnel)
  list_all_tunnels d = query d any_tunnel

  unfoldable pub list_wireguard_tunnels : Db → Option (List Tunnel)
  list_wireguard_tunnels d = query d (λ t. t.is_wireguard)

  pub list_client_tunnels : Db → Option (List Tunnel)
  list_client_tunnels d = query d (λ t. t.client)

  -- `client = false OR client IS NULL`; a Go `bool` is never stored as NULL.
  pub list_server_tunnels : Db → Option (List Tunnel)
  list_server_tunnels d = query d (λ t. not t.client)

  pub count_wireguard_tunnels : Db → Option ℕ
  count_wireguard_tunnels d = count d (λ t. t.is_wireguard)

  pub count_legacy_tunnels : Db → Option ℕ
  count_legacy_tunnels d = count d (λ t. not t.is_wireguard)

  pub count_all_active_tunnels : Db → Option ℕ
  count_all_active_tunnels d = count d (λ t. t.active)

  pub count_wireguard_active_tunnels : Db → Option ℕ
  count_wireguard_active_tunnels d = count d active_wireguard

  pub count_wireguard_client_tunnels : Db → Option ℕ
  count_wireguard_client_tunnels d = count d client_wireguard

  pub count_wireguard_server_tunnels : Db → Option ℕ
  count_wireguard_server_tunnels d = count d server_wireguard

  pub count_wireguard_active_client_tunnels : Db → Option ℕ
  count_wireguard_active_client_tunnels d = count d (λ t. t.client && active_wireguard t)

  pub count_wireguard_active_server_tunnels : Db → Option ℕ
  count_wireguard_active_server_tunnels d = count d (λ t. not t.client && active_wireguard t)

  pub delete_tunnel : Db → ℕ → Option Db
  delete_tunnel d i = remove d i

  pub clear_active_from_all_tunnels : Db → Option Db
  clear_active_from_all_tunnels d = update d (λ t. t.active) (λ t. record t { active = false })

-- internal/wireguard/wireguard.go, `GenerateWireguardInterfaceName`.
abbrev pub is_server : Tunnel → Bool
is_server t = not (equal t.wireguard_server_key [])

unfoldable pub interface_name : Tunnel → Bytes
interface_name t = (if is_server t then codes "wgs" else codes "wgc") ++ itoa t.id
