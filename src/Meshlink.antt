-- ===== src/Meshlink.antt =====
-- internal/services/meshlink/parser.go: the hosts and services that the Meshlink daemon writes, a
-- file for each node. The contents of files, in the order of the walk, and `url.Parse` are
-- parameters.
pub mod Files
pub mod State
mod Tests
use mesh_manager.Common.{
  ℕ, suc, ◌+◌, Bool, true, false, not, ◌&&◌, ◌||◌, List, [], ◌∷◌, ◌++◌, Option, none, some, Bytes,
  codes, equal, ◌==◌, if◌then◌else◌, split, trim_space, Piece, lit, group_star, blanks, at_end,
  is_blank, match_at, any,
}
use mesh_manager.Net.{Ip, v4, v6, ip4_string}
use mesh_manager.Olsr.{Url}

pub record MeshService : Type 0 where
  pub url : Bytes
  pub protocol : Bytes
  pub name : Bytes
  pub should_link : Bool
  pub tag : Bytes

pub record HostData : Type 0 where
  pub hostname : Bytes
  pub ip : Option Ip
  pub services : List MeshService

pub record Host : Type 0 where
  pub self : HostData
  pub children : List HostData

-- `\s[^\.]+$` in a line.
unfoldable pub is_mesh_line : Bytes → Bool
is_mesh_line [] = false
is_mesh_line (c ∷ []) = false
is_mesh_line (c ∷ d ∷ cs) =
    (is_blank c && not (any (λ b. b == b'.') (d ∷ cs))) || is_mesh_line (d ∷ cs)

-- `^(.*)\s+\[(.*)\]$`
abbrev pub tagged_regex : List Piece
tagged_regex = group_star ∷ blanks ∷ lit (codes "[") ∷ group_star ∷ lit (codes "]") ∷ at_end ∷ []

-- The name and the tag of a service: "Meshchat [chat]".
abbrev pub name_and_tag : Bytes → Option (List Bytes) → Bytes × Bytes
name_and_tag text (some (name ∷ tag ∷ [])) = (name, tag)
name_and_tag text _ = (text, [])

unfoldable pub split_tag : Bytes → Bytes × Bytes
unfolding match_at
split_tag text = name_and_tag text (match_at tagged_regex text)

abbrev pub service_of : Bytes → Bytes → Option Url → Option MeshService
service_of protocol text none = none
service_of protocol text (some u) = some record {
  url = u.text;
  protocol = protocol;
  name = (split_tag text).0;
  should_link = not (equal u.port (codes "0"));
  tag = (split_tag text).1;
}

-- `url|protocol|name`
abbrev pub service_parts : (Bytes → Option Url) → List Bytes → Option MeshService
service_parts parse_url (address ∷ protocol ∷ text ∷ []) =
    service_of protocol text (parse_url address)
service_parts parse_url _ = none

unfoldable pub parse_service : (Bytes → Option Url) → Bytes → Option MeshService
parse_service parse_url line =
    if equal (trim_space line) []
    then none
    else service_parts parse_url (split b'|' (trim_space line))

abbrev pub with_service : MeshService → List MeshService × ℕ → List MeshService × ℕ
with_service service (services, count) = (service ∷ services, count)

-- The services of some lines, with `serviceCount`, which goes up by one for each of them.
unfoldable pub service_lines : (Bytes → Option Url) → List Bytes → ℕ → List MeshService × ℕ
unfolding parse_service
service_lines parse_url [] count = ([], count)
service_lines parse_url (line ∷ lines) count = elim (parse_service parse_url line) [
  | none ↦ service_lines parse_url lines count
  | some service ↦ with_service service (service_lines parse_url lines (count + 1))
]

-- The name of a host's file of services: `IP.To4().String()`.
abbrev pub services_name : Ip → Bytes
services_name (v4 q) = ip4_string q
services_name (v6 bytes) = codes "<nil>"

-- The services of a host with the given address; a file that cannot be read has none.
abbrev pub file_services : (Bytes → Option Url) → Option Bytes → ℕ → List MeshService × ℕ
file_services parse_url none count = ([], count)
file_services parse_url (some file) count = service_lines parse_url (split 10 file) count
