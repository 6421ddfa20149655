-- ===== src/Olsr/Hosts.antt =====
-- internal/services/olsr/hosts_parser.go: the lines of the hosts file, and the children that wait
-- for their parent. A map is a list in the order of insertion; the code ranges over it in any
-- order.
pub mod Account
use mesh_manager.Common.{
  ℕ, suc, ◌+◌, ◌≤◌, ◌≡◌, refl, inl, inr, Bool, true, false, not, ◌&&◌, ◌||◌, List, [], ◌∷◌, ◌++◌,
  Option, none, some, Bytes, codes, equal, length, length-append, if◌then◌else◌, has_prefix,
  contains, split, trim_space, fields, store, select, arith, Bool-cases, Option-cases,
}
use mesh_manager.Net.{Ip, parse_ip}
use mesh_manager.Olsr.{HostData, Host, first_of_parts, same_ip}

pub record Orphan : Type 0 where
  pub ip : Ip
  pub parent : Option Ip

-- `ret`, `orphanedChildren`, `count` and `totalCount` of `parseHosts`.
pub record Reading : Type 0 where
  pub hosts : List Host
  pub orphans : List (Bytes × Orphan)
  pub count : ℕ
  pub total_count : ℕ

-- What a line is before its name is looked at: passed over, or a text with a parent's address.
pub data Line : Type 0 where
  ignored : Line
  entry : Bytes → Option Ip → Line

abbrev pub second_of_parts : List Bytes → Bytes
second_of_parts (a ∷ b ∷ parts) = b
second_of_parts _ = []

-- An address that belongs to this node is a parent of its own.
abbrev pub own_line : (Bytes → Option Bytes) → Bytes → List Bytes → Line
own_line parse_v6 text (address ∷ name ∷ []) = entry text (parse_ip parse_v6 (trim_space address))
own_line parse_v6 text _ = ignored

unfoldable pub read_line : (Bytes → Option Bytes) → Bytes → Line
read_line parse_v6 line =
    if has_prefix line (codes "#")
    then ignored
    else if contains line (codes "#")
    then (let text = first_of_parts (split b'#' line) in
        let mark = trim_space (second_of_parts (split b'#' line)) in
        if equal mark (codes "myself")
        then own_line parse_v6 text (fields text)
        else entry text (parse_ip parse_v6 mark))
    else entry line none

-- The child is put under the first host with the parent's address.
unfoldable pub add_child : HostData → Option Ip → List Host → Option (List Host)
add_child child parent [] = none
add_child child parent (h ∷ hs) =
    let rest = add_child child parent hs in
    if same_ip (some h.self.ip) parent
    then some (record h { children = h.children ++ child ∷ [] } ∷ hs)
    else elim rest [ none ↦ none | some hs' ↦ some (h ∷ hs') ]

abbrev pub is_child_of : Ip → Bytes × Orphan → Bool
is_child_of ip (name, orphan) = same_ip orphan.parent (some ip)

abbrev pub as_children : List (Bytes × Orphan) → List HostData
as_children [] = []
as_children ((name, orphan) ∷ rest) =
    record { hostname = name; ip = orphan.ip; services = [] } ∷ as_children rest

-- A named address: a child, an orphan, or a host with the orphans that waited for it.
unfoldable pub add_entry : Bytes → Ip → Option Ip → Reading → Reading
unfolding add_child
add_entry name ip parent r =
    if not (same_ip parent (some ip))
    then elim (add_child (record { hostname = name; ip = ip; services = [] }) parent r.hosts) [
      | some hosts ↦ record r { hosts = hosts; total_count = r.total_count + 1 }
      | none ↦ record r {
        orphans = store name (record { ip = ip; parent = parent }) r.orphans;
        total_count = r.total_count + 1;
      }
    ]
    else record r {
      hosts =
          r.hosts
          ++ (record {
            self = record { hostname = name; ip = ip; services = [] };
            children = as_children (select (is_child_of ip) r.orphans);
          })
            ∷ [];
      orphans = select (λ o. not (is_child_of ip o)) r.orphans;
      total_count = r.total_count + 1;
    }

-- A name that is looked at: names with a dot are counted as nodes or passed over.
unfoldable pub name_entry : (Bytes → Option Bytes) → Bytes → Bytes → Option Ip → Reading → Reading
unfolding add_entry
name_entry parse_v6 address name parent r =
    if equal name (codes "localhost")
    then r
    else if contains name (codes ".")
    then if has_prefix name (codes "dtdlink.") then record r { count = r.count + 1 } else r
    else if equal name []
    then r
    else elim (parse_ip parse_v6 address) [ none ↦ r | some ip ↦ add_entry name ip parent r ]

abbrev pub two_fields : (Bytes → Option Bytes) → List Bytes → Option Ip → Reading → Reading
two_fields parse_v6 (address ∷ name ∷ []) parent r =
    name_entry parse_v6 (trim_space address) (trim_space name) parent r
two_fields parse_v6 _ parent r = r

abbrev pub take_line : (Bytes → Option Bytes) → Line → Reading → Reading
take_line parse_v6 ignored r = r
take_line parse_v6 (entry text parent) r =
    if equal (trim_space text) [] then r else two_fields parse_v6 (fields text) parent r

unfoldable pub read_lines : (Bytes → Option Bytes) → List Bytes → Reading → Reading
unfolding read_line name_entry
read_lines parse_v6 [] r = r
read_lines parse_v6 (line ∷ lines) r =
    read_lines parse_v6 lines (take_line parse_v6 (read_line parse_v6 line) r)

abbrev pub nothing_read : Reading
nothing_read = record { hosts = []; orphans = []; count = 0; total_count = 0 }

-- The loop of `parseHosts` over the file.
unfoldable pub read_hosts : (Bytes → Option Bytes) → Bytes → Reading
unfolding read_lines
read_hosts parse_v6 file = read_lines parse_v6 (split 10 file) nothing_read
