-- ===== src/Api/Tests.antt =====
-- internal/server/api/controllers/v1/tunnels.go: requests over a table in memory.
use mesh_manager.Common.{
  ◌≡◌, refl, Bool, true, false, List, [], ◌∷◌, ◌++◌, none, some, Bytes, codes, ◌==◌, if◌then◌else◌,
  length, arith, pos,
}
use mesh_manager.Store.Memory.{memory}
use mesh_manager.Models.{TunnelStore, Tunnel, no_tunnel, tunnel_keyed}
use mesh_manager.Config.{Config}
use mesh_manager.Api.{Outside, Effect, Site, reload, dnsmasq_service}
use mesh_manager.Api.Create.{CreateTunnel, post_tunnel}
use mesh_manager.Api.Edit.{EditTunnel, patch_tunnel}
use mesh_manager.Api.Remove.{remove_tunnel}
use mesh_manager.Api.Refusals.{
  Refuses, post_tunnel-Refuses, patch_tunnel-Refuses, remove_tunnel-Refuses,
}
use mesh_manager.Api.Keeps.{site_of, NotOk}
use mesh_manager.Api.Clients.{Ends, post_tunnel_client}
use mesh_manager.Api.Edits.{patch_tunnel_unused}
use mesh_manager.Api.Listing.{ListQuery, get_tunnels}
use mesh_manager.Api.Listing.Passwords.{DiscreetReply, get_tunnels-DiscreetReply}

abbrev tunnels : TunnelStore
tunnels = memory tunnel_keyed

abbrev settings : Config
settings = record {
  log_level = codes "info";
  password_salt = codes "salt";
  initial_admin_user_password = [];
  babel = record { enabled = true; router_id = codes "02:00:00:00:00:00:00:01" };
  olsr = true;
  trusted_proxies = [];
  hibp_api_key = [];
  server_name = codes "node";
  supernode = false;
  node_ip = codes "10.54.25.1";
  metrics = record { enabled = false; node_exporter_host = []; port = pos 0 };
  wireguard = record { starting_address = codes "172.31.180.16"; starting_port = 5527 };
  lqm_enabled = true;
}

abbrev is_dns_reload : Effect → Bool
is_dns_reload (reload dnsmasq_service) = true
is_dns_reload _ = false

-- Every call is accepted but the reload of the DNS service.
abbrev outside : Outside
outside = record {
  accepts = λ done e. if is_dns_reload e then false else true;
  has_service = λ service. true;
  parse_v6 = λ text. none;
  valid_uri = λ text. true;
  is_key = λ text. length text == 44;
  server_key = none;
  client_key = none;
}

abbrev site : Site (List Tunnel)
site = record {
  db = record no_tunnel { id = 3; ip = codes "172.31.180.20"; is_wireguard = true } ∷ [];
  effects = [];
}

abbrev key : Bytes
key = codes "AAAAAAAAAAAAAAAAAAAAAAAAAAAAAAAAAAAAAAAAAAA="

abbrev request : CreateTunnel
request = record {
  wireguard = true;
  hostname = codes "node.example.com";
  password = key ++ (key ++ key);
  ip = codes "172.31.180.16:5527";
  client = true;
}

abbrev edit : EditTunnel
edit = record {
  id = 3;
  enabled = true;
  wireguard = true;
  hostname = codes "node";
  password = [];
  ip = codes "172.31.180.24";
}

post_tunnel-Refuses_example :
    Refuses site (post_tunnel tunnels outside settings (some (record request { ip = [] })) site)
post_tunnel-Refuses_example =
    post_tunnel-Refuses tunnels outside settings (some (record request { ip = [] })) site

patch_tunnel-Refuses_example :
    Refuses site (patch_tunnel tunnels outside settings (some (record edit { id = 4 })) site)
patch_tunnel-Refuses_example =
    patch_tunnel-Refuses tunnels outside settings (some (record edit { id = 4 })) site

remove_tunnel-Refuses_example :
    Refuses site (remove_tunnel tunnels outside settings (codes "4") site)
remove_tunnel-Refuses_example = remove_tunnel-Refuses tunnels outside settings (codes "4") site

post_tunnel_client_example :
    Ends tunnels outside settings request site
      (post_tunnel tunnels outside settings (some request) site)
post_tunnel_client_example =
    post_tunnel_client tunnels outside settings request site (omega arith, tt) refl

patch_tunnel_unused_example :
    (site_of (patch_tunnel tunnels outside settings (some edit) site) ≡ site)
    × NotOk (patch_tunnel tunnels outside settings (some edit) site)
patch_tunnel_unused_example =
    patch_tunnel_unused tunnels outside settings edit site refl (ground arith, tt)

-- The second page of one row.
abbrev second_page : ListQuery
second_page = record {
  kind = none;
  filter = none;
  page = some (codes "2");
  limit = some (codes "1");
  admin = none;
}

abbrev like_all : Bytes → Bytes → Bool
like_all name pattern = true

abbrev listed_server : Tunnel
listed_server = record no_tunnel { id = 3; is_wireguard = true; password = codes "secret" }

abbrev listed_client : Tunnel
listed_client = record no_tunnel { id = 5; is_wireguard = true; client = true }

abbrev two_rows : List Tunnel
two_rows = listed_server ∷ listed_client ∷ []

get_tunnels-DiscreetReply_example : DiscreetReply true (
    get_tunnels tunnels like_all true (record second_page { admin = some (codes "true") }) two_rows)
get_tunnels-DiscreetReply_example =
    get_tunnels-DiscreetReply tunnels like_all true
      (record second_page { admin = some (codes "true") }) two_rows
