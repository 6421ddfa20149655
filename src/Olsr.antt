-- ===== src/Olsr.antt =====
-- internal/services/olsr/hosts_parser.go and services_parser.go: the hosts and services that the
-- routing daemon writes into its files. The contents of a file and `url.Parse` are parameters.
pub mod Hosts
pub mod Pages
pub mod Generator
pub mod Services
mod Tests
use mesh_manager.Common.{
  ℕ, ◌≡◌, Bool, true, false, not, ◌&&◌, List, [], ◌∷◌, ◌++◌, Option, none, some, Bytes, codes,
  equal, ◌==◌, if◌then◌else◌, has_prefix, contains, split, trim_space,
}
use mesh_manager.Net.{Ip4, Ip, v4, v6}

pub record MeshService : Type 0 where
  pub url : Bytes
  pub protocol : Bytes
  pub name : Bytes
  pub should_link : Bool

pub record HostData : Type 0 where
  pub hostname : Bytes
  pub ip : Ip
  pub services : List MeshService

pub record Host : Type 0 where
  pub self : HostData
  pub children : List HostData

-- What `url.Parse` gives: the text and the port of the URL.
pub record Url : Type 0 where
  pub text : Bytes
  pub port : Bytes

abbrev pub first_of_parts : List Bytes → Bytes
first_of_parts [] = []
first_of_parts (part ∷ parts) = part

-- The line before the first `#`, without the space around it.
unfoldable pub service_text : Bytes → Bytes
service_text line =
    trim_space (if contains line (codes "#") then first_of_parts (split b'#' line) else line)

-- `url|protocol|name`
abbrev pub service_parts : (Bytes → Option Url) → List Bytes → Option MeshService
service_parts parse_url (address ∷ protocol ∷ name ∷ []) = elim (parse_url address) [
  | none ↦ none
  | some u ↦ some (record {
    url = u.text;
    protocol = protocol;
    name = name;
    should_link = not (equal u.port (codes "0"));
  })
]
service_parts parse_url _ = none

unfoldable pub parse_service : (Bytes → Option Url) → Bytes → Option MeshService
unfolding service_text
parse_service parse_url line =
    if has_prefix line (codes "#")
    then none
    else if equal (service_text line) []
    then none
    else service_parts parse_url (split b'|' (service_text line))

unfoldable pub service_lines : (Bytes → Option Url) → List Bytes → List MeshService
unfolding parse_service
service_lines parse_url [] = []
service_lines parse_url (line ∷ lines) =
    let rest = service_lines parse_url lines in
    elim (parse_service parse_url line) [ none ↦ rest | some service ↦ service ∷ rest ]

-- `parseServices` on the contents of the file.
pub parse_services : (Bytes → Option Url) → Option Bytes → Option (List MeshService)
unfolding service_lines
parse_services parse_url none = none
parse_services parse_url (some file) = some (service_lines parse_url (split 10 file))

-- `IP.Equal`, and the equality of what `String` writes.
abbrev pub same_ip : Option Ip → Option Ip → Bool
same_ip none none = true
same_ip none (some b) = false
same_ip (some a) none = false
same_ip (some (v4 p)) (some (v4 q)) =
    p.o0 == q.o0 && (p.o1 == q.o1 && (p.o2 == q.o2 && p.o3 == q.o3))
same_ip (some (v4 p)) (some (v6 b)) = false
same_ip (some (v6 a)) (some (v4 q)) = false
same_ip (some (v6 a)) (some (v6 b)) = equal a b
