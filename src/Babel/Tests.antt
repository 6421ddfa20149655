-- ===== src/Babel/Tests.antt =====
-- internal/services/babel: a few lines of the daemon.
use mesh_manager.Common.{
  ◌≡◌, refl, true, false, [], ◌∷◌, Option, none, some, Bytes, codes, equal, ok, load, contains,
  has_prefix, itoa, parse_digits, match_at, strip, star, grab, edge,
}
use mesh_manager.Net.{parse_ip, ip4_string}
use mesh_manager.Models.{no_tunnel, interface_name}
use mesh_manager.Babel.{generate_tunnel_line, tunnel_lines}
use mesh_manager.Babel.Metrics.{
  Metrics, Socket, parse_entry, after_banner, fetch_installed_route_metrics,
}
use mesh_manager.Babel.Metrics.Least.{load-fetch_installed_route_metrics}

abbrev no_v6 : Bytes → Option Bytes
no_v6 s = none

entry_of_line :
    parse_entry no_v6
      (codes "add route 1 prefix 10.1.2.3/24 from :: installed yes id 2 metric 96 if a")
    ≡ some (codes "10.1.2.0/24", 96)
unfolding parse_entry match_at strip star grab edge parse_digits parse_ip ip4_string itoa contains
    has_prefix
entry_of_line = refl

entry_of_host :
    parse_entry no_v6 (codes "add route 1 prefix 10.1.2.3 from :: installed yes id 2 metric 65535")
    ≡ none
unfolding parse_entry match_at strip star grab edge parse_digits parse_ip ip4_string itoa contains
    has_prefix
entry_of_host = refl

-- An IPv4 network that is written as an IPv6 one.
abbrev mapped_v6 : Bytes → Option Bytes
mapped_v6 text = some (0 ∷ 0 ∷ 0 ∷ 0 ∷ 0 ∷ 0 ∷ 0 ∷ 0 ∷ 0 ∷ 0 ∷ 255 ∷ 255 ∷ 10 ∷ 1 ∷ 2 ∷ 3 ∷ [])

entry_of_mapped :
    parse_entry mapped_v6
      (codes "add route 1 prefix ::ffff:a01:203/120 from :: installed yes id 2 metric 96 if a")
    ≡ some (codes "10.1.2.0/24", 96)
unfolding parse_entry match_at strip star grab edge parse_digits parse_ip ip4_string itoa contains
    has_prefix equal
entry_of_mapped = refl

abbrev first : Bytes
first = codes "add route 1 prefix 10.1.2.3 from :: installed yes id 2 metric 300 if a"

abbrev second : Bytes
second = codes "add route 2 prefix 10.1.2.3 from :: installed yes id 2 metric 96 if b"

abbrev socket : Socket
socket = record {
  connects = true;
  takes_deadline = true;
  takes_command = true;
  replies = codes "BABEL 1.0" ∷ codes "ok" ∷ first ∷ second ∷ codes "ok" ∷ [];
  scanner_breaks = false;
}

load-fetch_installed_route_metrics_example :
    (m : Metrics) × (fetch_installed_route_metrics no_v6 socket ≡ ok m)
    × (load (codes "10.1.2.3/32") m ≡ some 96)
unfolding after_banner equal parse_entry match_at strip star grab edge parse_digits parse_ip
    ip4_string itoa contains has_prefix
load-fetch_installed_route_metrics_example =
    load-fetch_installed_route_metrics no_v6 socket (codes "10.1.2.3/32") refl refl refl refl

two_tunnels :
    tunnel_lines false (no_tunnel ∷ record no_tunnel { id = 2; enabled = true } ∷ [])
    ≡ generate_tunnel_line (codes "wgc2") false
unfolding tunnel_lines interface_name equal itoa generate_tunnel_line
two_tunnels = refl
