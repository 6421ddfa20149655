-- ===== src/Config/Tests.antt =====
-- A configuration that is accepted, and one that is not.
use mesh_manager.Common.{
  ◌≡◌, refl, ◌↔◌, true, false, [], Option, none, Bytes, codes, ok, err, pos, equal,
}
use mesh_manager.Net.{ipv4_of, parse_ip}
use mesh_manager.Config.{Config, validate, node_ip_not_10_8}
use mesh_manager.Config.Sound.{HasSettings, HasAddresses, validate_iff}

abbrev no_v6 : Bytes → Option Bytes
no_v6 s = none

abbrev good : Config
good = record {
  log_level = codes "info";
  password_salt = codes "salt";
  initial_admin_user_password = [];
  babel = record { enabled = false; router_id = [] };
  olsr = true;
  trusted_proxies = [];
  hibp_api_key = [];
  server_name = codes "KI5VMF";
  supernode = false;
  node_ip = codes "10.0.0.1";
  metrics = record { enabled = true; node_exporter_host = codes "exporter"; port = pos 9100 };
  wireguard = record { starting_address = codes "172.31.0.12"; starting_port = 5527 };
  lqm_enabled = true;
}

validate-good : validate no_v6 good ≡ ok tt
unfolding validate ipv4_of parse_ip equal
validate-good = refl

validate_outside :
    validate no_v6 (record good { node_ip = codes "44.0.0.1" }) ≡ err node_ip_not_10_8
unfolding validate ipv4_of parse_ip equal
validate_outside = refl

validate_iff_example : (validate no_v6 good ≡ ok tt) ↔ (HasSettings good × HasAddresses no_v6 good)
validate_iff_example = validate_iff no_v6 good
