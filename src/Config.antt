-- ===== src/Config.antt =====
-- internal/config/config.go: the configuration and `Config.Validate`. The coordinates, which are
-- floats that only the distance of a neighbour reads, are left out.
pub mod Sound
mod Tests
use mesh_manager.Common.{
  ℕ, ◌+◌, ◌<◌, ◌≡◌, Bool, true, false, not, ◌&&◌, ◌||◌, List, [], ◌∷◌, Option, none, some, ltb, leb,
  ◌==◌, if◌then◌else◌, Bytes, codes, equal, Result, ok, err, panic, ◌>>=◌, ◌>>◌, ℤ, pos, negsuc,
}
use mesh_manager.Net.{Ip4, ipv4_of}

pub record Babel : Type 0 where
  pub enabled : Bool
  pub router_id : Bytes

pub record Metrics : Type 0 where
  pub enabled : Bool
  pub node_exporter_host : Bytes
  pub port : ℤ

pub record Wireguard : Type 0 where
  pub starting_address : Bytes
  pub starting_port : ℕ

pub record Config : Type 0 where
  pub log_level : Bytes
  pub password_salt : Bytes
  pub initial_admin_user_password : Bytes
  pub babel : Babel
  pub olsr : Bool
  pub trusted_proxies : List Bytes
  pub hibp_api_key : Bytes
  pub server_name : Bytes
  pub supernode : Bool
  pub node_ip : Bytes
  pub metrics : Metrics
  pub wireguard : Wireguard
  pub lqm_enabled : Bool

pub data Error : Type 0 where
  invalid_log_level password_salt_required babel_router_id_required : Error
  metrics_port_required metrics_port_invalid metrics_node_exporter_host_required : Error
  server_name_required node_ip_required : Error
  wireguard_starting_address_required wireguard_starting_address_invalid : Error
  wireguard_starting_port_required wireguard_starting_port_invalid : Error
  node_ip_invalid node_ip_not_10_8 : Error

-- `if b { return e }`.
abbrev pub refuse : Bool → Error → Result Error (Unit {0})
refuse true e = err e
refuse false e = ok tt

abbrev pub empty : Bytes → Bool
empty [] = true
empty (c ∷ cs) = false

abbrev pub known_level : Bytes → Bool
known_level l =
    equal l (codes "debug")
    || equal l (codes "info")
    || equal l (codes "warn")
    || equal l (codes "error")

-- `c.Port == 0` and `c.Port < 1 || c.Port > 65535`.
abbrev pub is_zero : ℤ → Bool
is_zero (pos n) = n == 0
is_zero (negsuc n) = false

abbrev pub out_of_range : ℤ → Bool
out_of_range (pos n) = ltb n 1 || ltb 65535 n
out_of_range (negsuc n) = true

abbrev pub require_ip4 : Option Ip4 → Error → Result Error Ip4
require_ip4 none e = err e
require_ip4 (some q) e = ok q

validate_metrics : Metrics → Result Error (Unit {0})
validate_metrics m = do
  refuse (is_zero m.port) metrics_port_required
  refuse (out_of_range m.port) metrics_port_invalid
  refuse (empty m.node_exporter_host) metrics_node_exporter_host_required

validate_addresses : (Bytes → Option Bytes) → Config → Result Error (Unit {0})
validate_addresses parse_v6 c = do
  start ←
      require_ip4 (ipv4_of parse_v6 c.wireguard.starting_address) wireguard_starting_address_invalid
  refuse (c.wireguard.starting_port == 0) wireguard_starting_port_required
  refuse (ltb c.wireguard.starting_port 1024) wireguard_starting_port_invalid
  node ← require_ip4 (ipv4_of parse_v6 c.node_ip) node_ip_invalid
  refuse (not (node.o0 == 10)) node_ip_not_10_8

pub validate : (Bytes → Option Bytes) → Config → Result Error (Unit {0})
unfolding validate_metrics validate_addresses
validate parse_v6 c = do
  refuse (not (known_level c.log_level)) invalid_log_level
  refuse (empty c.password_salt) password_salt_required
  refuse (c.babel.enabled && empty c.babel.router_id) babel_router_id_required
  if c.metrics.enabled then validate_metrics c.metrics else ok tt
  refuse (empty c.server_name) server_name_required
  refuse (empty c.node_ip) node_ip_required
  refuse (empty c.wireguard.starting_address) wireguard_starting_address_required
  validate_addresses parse_v6 c
