-- ===== src/Olsr/Tests.antt =====
-- internal/services/olsr/hosts_parser.go and services_parser.go on a few lines.
use mesh_manager.Common.{
  ◌+◌, ◌≡◌, refl, List, [], ◌∷◌, ◌++◌, Option, none, some, Bytes, codes, arith, length, equal,
  contains, to_lower, has_prefix, split, fields, trim_space, trim_left, trim_right, store, true,
  itoa,
}
use mesh_manager.Net.{v4, parse_ip}
use mesh_manager.Models.{Tunnel, no_tunnel, interface_name}
use mesh_manager.Olsr.Generator.{quoted, tunnel_names, tunnel_string, shell_replace, replace_from}
use mesh_manager.Olsr.Generator.Interfaces.{fields-tunnel_names}
use mesh_manager.Olsr.{MeshService, Host}
use mesh_manager.Olsr.Hosts.{read_hosts, read_lines, read_line, name_entry, add_entry, add_child}
use mesh_manager.Olsr.Hosts.Account.{Accounted, read_hosts-Accounted}
use mesh_manager.Olsr.Services.{attach_services}
use mesh_manager.Olsr.Services.Once.{count_given, count_given-attach_services}

abbrev no_v6 : Bytes → Option Bytes
no_v6 s = none

abbrev host : Bytes → Host
host name = record {
  self = record {
    hostname = name;
    ip = v4 (record { o0 = 10; o1 = 0; o2 = 0; o3 = 1 });
    services = [];
  };
  children = [];
}

abbrev hosts : List Host
hosts = host (codes "a") ∷ host (codes "b") ∷ host (codes "c") ∷ []

-- A host of this node, a child of it, and a child of a node that is not there.
abbrev file : Bytes
file =
    codes "10.0.0.1 node # myself"
    ++ (10 ∷ (codes "10.0.0.2 pc # 10.0.0.1" ++ (10 ∷ codes "10.0.0.3 lost # 10.9.9.9")))

file_counts :
    ((read_hosts no_v6 file).total_count ≡ 3)
    × (length (read_hosts no_v6 file).hosts ≡ 1)
    × (length (read_hosts no_v6 file).orphans ≡ 1)
unfolding read_hosts read_lines read_line name_entry add_entry add_child split has_prefix contains
    fields trim_space trim_left trim_right equal parse_ip store
file_counts = (refl, refl, refl)

read_hosts-Accounted_example : Accounted (read_hosts no_v6 file)
read_hosts-Accounted_example = read_hosts-Accounted no_v6 file

abbrev chat : MeshService
chat = record {
  url = codes "http://B:80/";
  protocol = codes "tcp";
  name = codes "chat";
  should_link = true;
}

abbrev host_b : Bytes → Option Bytes
host_b url = some (codes "B")

count_given-attach_services_example : count_given (attach_services host_b (chat ∷ []) hosts) ≡ 0 + 1
unfolding to_lower equal
count_given-attach_services_example = count_given-attach_services host_b (chat ∷ []) hosts

-- The last tunnel is disabled: a space is left at the end.
abbrev enabled_tunnel : Tunnel
enabled_tunnel = record no_tunnel { id = 1; enabled = true }

abbrev last_tunnel : Tunnel
last_tunnel = record no_tunnel { id = 2 }

left_space : tunnel_names (enabled_tunnel ∷ last_tunnel ∷ []) ≡ codes "\"wgc1\" "
unfolding tunnel_names tunnel_string interface_name equal itoa
left_space = refl

replaced : shell_replace ((codes "A", codes "b$") ∷ []) (codes "x${A}y${B}") ≡ codes "xb$y${B}"
unfolding shell_replace replace_from has_prefix
replaced = refl

fields-tunnel_names_example :
    fields (tunnel_names (enabled_tunnel ∷ last_tunnel ∷ [])) ≡ quoted enabled_tunnel ∷ []
fields-tunnel_names_example =
    fields-tunnel_names last_tunnel (enabled_tunnel ∷ []) (ground arith, tt)
