-- ===== src/Olsr/Services.antt =====
-- internal/services/olsr/hosts_parser.go, the end of `parseHosts`: the services are put under the
-- hosts and children that their URLs name. A pointer to a service that was found is a mark on it;
-- the host part of a URL, if `url.Parse` takes it, is a parameter.
pub mod Once
use mesh_manager.Common.{
  ℕ, Bool, true, false, not, ◌&&◌, ◌||◌, List, [], ◌∷◌, ◌++◌, Option, none, some, Bytes, equal,
  to_lower, if◌then◌else◌,
}
use mesh_manager.Olsr.{MeshService, HostData, Host}
use mesh_manager.Olsr.Hosts.{Reading, read_hosts}

-- A service, and whether it is among `foundServices`.
abbrev pub Marked : Type 0
Marked = Bool × MeshService

abbrev pub unmarked : List MeshService → List Marked
unmarked [] = []
unmarked (s ∷ ss) = (false, s) ∷ unmarked ss

-- `strings.EqualFold` on ASCII.
abbrev pub same_name : Bytes → Option Bytes → Bool
same_name name none = false
same_name name (some host) = equal (to_lower name) (to_lower host)

module _ (host_of : Bytes → Option Bytes) where
  abbrev pub names : Bytes → Marked → Bool
  names name (found, s) = not found && same_name name (host_of s.url)

  -- The loop over the services for one name: those that it takes, and the marks after it.
  unfoldable pub taken_by : Bytes → List Marked → List MeshService
  taken_by name [] = []
  taken_by name (m ∷ ms) = if names name m then m.1 ∷ taken_by name ms else taken_by name ms

  unfoldable pub marked_by : Bytes → List Marked → List Marked
  marked_by name [] = []
  marked_by name (m ∷ ms) = (if names name m then (true, m.1) else m) ∷ marked_by name ms

  abbrev pub give : HostData → List Marked → HostData
  give d ms = record d { services = d.services ++ taken_by d.hostname ms }

  -- The children of a host, in order, then the host itself.
  unfoldable pub give_children : List HostData → List Marked → List HostData × List Marked
  give_children [] ms = ([], ms)
  give_children (d ∷ ds) ms =
      let rest = give_children ds (marked_by d.hostname ms) in (give d ms ∷ rest.0, rest.1)

  unfoldable pub give_host : Host → List Marked → Host × List Marked
  unfolding give_children
  give_host h ms =
      let below = give_children h.children ms in
      (record { self = give h.self below.1; children = below.0 }, marked_by h.self.hostname below.1)

  unfoldable pub give_hosts : List Host → List Marked → List Host × List Marked
  unfolding give_host
  give_hosts [] ms = ([], ms)
  give_hosts (h ∷ hs) ms =
      let first = give_host h ms in let rest = give_hosts hs first.1 in (first.0 ∷ rest.0, rest.1)

  -- The hosts after the loops. Without the services the hosts stay, and `parseHosts` gives an
  -- error.
  unfoldable pub attach_services : List MeshService → List Host → List Host
  unfolding give_hosts
  attach_services services hosts = (give_hosts hosts (unmarked services)).0

-- `parseHosts` on the contents of the two files: the hosts with their services and the two counts.
-- An error in reading either is an error.
unfoldable pub parse_hosts :
    (Bytes → Option Bytes)
    → (Bytes → Option Bytes)
    → Option Bytes
    → Option (List MeshService)
    → Option (List Host × ℕ × ℕ)
unfolding attach_services
parse_hosts parse_v6 host_of none services = none
parse_hosts parse_v6 host_of (some file) none = none
parse_hosts parse_v6 host_of (some file) (some services) =
    let r = read_hosts parse_v6 file in
    some (attach_services host_of services r.hosts, r.count, r.total_count)
