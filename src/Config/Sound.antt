-- ===== src/Config/Sound.antt =====
-- What an accepted configuration guarantees, and that such configurations are accepted.
use mesh_manager.Common.{
  ◌≤◌, ◌<◌, ◌≡◌, ◌≢◌, ◌↔◌, true, [], Option, none, some, Bytes, ok, arith, ℤ, pos, negsuc,
}
use mesh_manager.Net.{Ip4, ipv4_of}
use mesh_manager.Config.{
  Config, Metrics, known_level, validate, validate_metrics, validate_addresses,
}

-- A port that a socket can be bound to.
abbrev pub IsPort : ℤ → Type 0
IsPort (pos n) = (0 < n) × (n < 65536)
IsPort (negsuc n) = ⊥

-- The settings that the program needs are there.
pub record HasSettings (c : Config) : Type 0 where
  pub level : known_level c.log_level ≡ true
  pub salt : c.password_salt ≢ []
  pub router : c.babel.enabled ≡ true → c.babel.router_id ≢ []
  pub port : c.metrics.enabled ≡ true → IsPort c.metrics.port
  pub exporter : c.metrics.enabled ≡ true → c.metrics.node_exporter_host ≢ []
  pub name : c.server_name ≢ []

-- An address that is there and lies in 10.0.0.0/8.
abbrev pub InTen : Option Ip4 → Type 0
InTen none = ⊥
InTen (some q) = q.o0 ≡ 10

-- The addresses are usable: both are IPv4, the node's in 10.0.0.0/8, and the ports are not
-- reserved.
pub record HasAddresses (parse_v6 : Bytes → Option Bytes) (c : Config) : Type 0 where
  pub node_given : c.node_ip ≢ []
  pub start_given : c.wireguard.starting_address ≢ []
  pub start : ipv4_of parse_v6 c.wireguard.starting_address ≢ none
  pub node : InTen (ipv4_of parse_v6 c.node_ip)
  pub port : 1024 ≤ c.wireguard.starting_port

validate_metrics_iff :
    (m : Metrics) → (validate_metrics m ≡ ok tt) ↔ (IsPort m.port × (m.node_exporter_host ≢ []))
unfolding validate_metrics
validate_metrics_iff m = ground arith

validate_addresses_iff :
    (parse_v6 : Bytes → Option Bytes) (c : Config)
    → (validate_addresses parse_v6 c ≡ ok tt) ↔ (
        (ipv4_of parse_v6 c.wireguard.starting_address ≢ none)
        × InTen (ipv4_of parse_v6 c.node_ip)
        × (1024 ≤ c.wireguard.starting_port))
unfolding validate_addresses
validate_addresses_iff parse_v6 c = ground arith

-- A configuration is accepted exactly when it has all settings that the program needs and both its
-- addresses are usable, whatever reads IPv6 texts.
pub validate_iff :
    (parse_v6 : Bytes → Option Bytes) (c : Config)
    → (validate parse_v6 c ≡ ok tt) ↔ (HasSettings c × HasAddresses parse_v6 c)
unfolding validate
validate_iff parse_v6 c =
    ground (arith, validate_metrics_iff c.metrics, validate_addresses_iff parse_v6 c)
