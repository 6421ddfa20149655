-- ===== src/Meshlink/Tests.antt =====
-- internal/services/meshlink/parser.go: a file of one node.
use mesh_manager.Common.{
  ℕ, ◌≡◌, refl, true, false, List, [], ◌∷◌, ◌++◌, Option, none, some, Bytes, codes, equal, arith,
  split, fields, trim_space, trim_suffix, has_prefix,
}
use mesh_manager.Net.{v4, parse_ip, ip4_string}
use mesh_manager.Olsr.{Url}
use mesh_manager.Meshlink.{Host, split_tag, service_lines, is_mesh_line}
use mesh_manager.Meshlink.Files.{Found, parse_hosts, take_line, take_lines}
use mesh_manager.Meshlink.Files.Counts.{IsCounted, parse_hosts-IsCounted}
use mesh_manager.Meshlink.State.{Parser, begin, begun, noted, publish, leave, again}
use mesh_manager.Meshlink.State.Overlap.{working, asked, published, again_overlap}

tag_example : split_tag (codes "Meshchat [chat]") ≡ (codes "Meshchat", codes "chat")
unfolding split_tag
tag_example = refl

abbrev plain_url : Bytes → Option Url
plain_url text = some (record { text = text; port = codes "80" })

abbrev no_v6 : Bytes → Option Bytes
no_v6 text = none

abbrev node_file : Bytes
node_file =
    codes "10.1.2.3\tNODE"
    ++ (10 ∷ (codes "10.1.2.4\tlan.NODE.local.mesh" ++ (10 ∷ codes "10.1.2.5\tphone.local.mesh")))

abbrev services : Bytes → Option Bytes
services name = some (codes "http://NODE/|tcp|Chat [chat]")

abbrev files : List (Option Bytes)
files = some node_file ∷ none ∷ []

parse_hosts-IsCounted_example :
    (f : Found) × (parse_hosts no_v6 plain_url services (some files) ≡ some f) × IsCounted 2 f
parse_hosts-IsCounted_example = parse_hosts-IsCounted no_v6 plain_url services files

abbrev node : Host
node = record {
  self = record {
    hostname = codes "NODE";
    ip = some (v4 (record { o0 = 10; o1 = 1; o2 = 2; o3 = 3 }));
    services =
        record {
          url = codes "http://NODE/";
          protocol = codes "tcp";
          name = codes "Chat";
          should_link = true;
          tag = codes "chat";
        }
        ∷ [];
  };
  children =
      record {
        hostname = codes "phone";
        ip = some (v4 (record { o0 = 10; o1 = 1; o2 = 2; o3 = 5 }));
        services = [];
      }
      ∷ [];
}

-- The node, its service, and its one child that is no interface.
node_example :
    parse_hosts no_v6 plain_url services (some files)
    ≡ some (record { hosts = node ∷ []; count = 1; total_count = 2; service_count = 1 })
unfolding parse_hosts take_lines take_line is_mesh_line service_lines split_tag parse_ip ip4_string
    equal split fields trim_space trim_suffix has_prefix
node_example = refl

abbrev idle : Parser
idle = record {
  current_hosts = [];
  nodes_count = 0;
  total_count = 0;
  service_count = 0;
  is_parsing = false;
  need_parse = false;
  last_mod_time = 5;
}

abbrev found : List Host × ℕ × ℕ × ℕ
found = (node ∷ [], 1, 2, 1)

again_overlap_example :
    (begin 7 idle ≡ begun 7 (working idle 7 8 9 found))
    × (begin 8 (working idle 7 8 9 found) ≡ noted (asked idle 7 8 9 found))
    × ((publish 7 (some found) (asked idle 7 8 9 found)).1 ≡ true)
    × (again 9 (leave (published idle 7 8 9 found))
        ≡ begun 9 (record (published idle 7 8 9 found) { need_parse = false }))
    × (again 9 (published idle 7 8 9 found) ≡ noted (published idle 7 8 9 found))
    × ((leave (published idle 7 8 9 found)).is_parsing ≡ false)
    × ((leave (published idle 7 8 9 found)).last_mod_time ≡ 7)
again_overlap_example =
    again_overlap idle 7 8 9 found refl (omega arith) (omega arith) (omega arith)
