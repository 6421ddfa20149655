-- ===== src/Meshlink/Files.antt =====
-- internal/services/meshlink/parser.go, `parseHosts`: the walk over the files.
pub mod Counts
use mesh_manager.Common.{
  ℕ, zero, suc, ◌+◌, Bool, true, false, not, ◌&&◌, ◌||◌, List, [], ◌∷◌, ◌++◌, Option, none, some,
  Bytes, codes, equal, length, ◌==◌, if◌then◌else◌, split, trim_space, trim_suffix, fields,
  has_prefix,
}
use mesh_manager.Net.{Ip, parse_ip}
use mesh_manager.Olsr.{Url}
use mesh_manager.Meshlink.{MeshService, HostData, Host, is_mesh_line, services_name, file_services}

-- Names that the node gives to its own interfaces.
abbrev pub is_infrastructure : Bytes → Bool
is_infrastructure name =
    has_prefix name (codes "lan.")
    || (has_prefix name (codes "dtdlink.")
        || (has_prefix name (codes "babel.") || has_prefix name (codes "supernode.")))

abbrev pub add_named : Bytes → Option Ip → Host → Host
add_named name none h = h
add_named name (some ip) h = if is_infrastructure name then h else record h {
  children = h.children ++ (record { hostname = name; ip = some ip; services = [] }) ∷ [];
}

-- What the walk has collected: `ret`, `count`, `totalCount`, `serviceCount`.
pub record Found : Type 0 where
  pub hosts : List Host
  pub count : ℕ
  pub total_count : ℕ
  pub service_count : ℕ

-- What a file has been read to: the host so far, and `serviceCount`.
abbrev pub Reading : Type 0
Reading = Option Host × ℕ

abbrev pub add_host : Reading → Found → Found
add_host (none, services) f = record f { total_count = f.total_count + 1; service_count = services }
add_host (some h, services) f = record {
  hosts = f.hosts ++ h ∷ [];
  count = f.count + 1;
  total_count = f.total_count + 1;
  service_count = services;
}

module _ (parse_v6 : Bytes → Option Bytes) (parse_url : Bytes → Option Url)
    (services_file : Bytes → Option Bytes) where
  -- The first two fields of a line.
  abbrev pub host_with : Bytes → Option Ip → List MeshService × ℕ → Reading
  host_with name ip (services, count) = (
    some
        (record { self = record { hostname = name; ip = ip; services = services }; children = [] }),
    count,
  )

  abbrev pub new_host : Bytes → Option Ip → ℕ → Reading
  new_host name none count = host_with name none ([], count)
  new_host name (some ip) count =
      host_with name (some ip) (file_services parse_url (services_file (services_name ip)) count)

  -- The host so far, after a line of two fields or more: the first line that names a node starts
  -- it, and stays even if its address cannot be parsed; each later one is a child.
  abbrev pub take_fields : Bool → Bytes → Bytes → Reading → Reading
  take_fields starts address name (none, count) =
      if starts
      then new_host (trim_space name) (parse_ip parse_v6 (trim_space address)) count
      else (none, count)
  take_fields starts address name (some h, count) = (
    some (
        add_named (trim_suffix (trim_space name) (codes ".local.mesh"))
          (parse_ip parse_v6 (trim_space address)) h),
    count,
  )

  abbrev pub with_fields : Bool → List Bytes → Reading → Reading
  with_fields starts (address ∷ name ∷ more) h = take_fields starts address name h
  with_fields starts _ h = h

  unfoldable pub take_line : Bytes → Reading → Reading
  take_line line h =
      if equal (trim_space line) [] then h else with_fields (is_mesh_line line) (fields line) h

  unfoldable pub take_lines : List Bytes → Reading → Reading
  take_lines [] h = h
  take_lines (line ∷ lines) h = take_lines lines (take_line line h)

  -- A file that cannot be read is empty.
  abbrev pub read_file : Option Bytes → ℕ → Reading
  read_file none count = take_lines (split 10 []) (none, count)
  read_file (some file) count = take_lines (split 10 file) (none, count)

  unfoldable pub walk : List (Option Bytes) → Found → Found
  walk [] f = f
  walk (file ∷ files) f = walk files (add_host (read_file file f.service_count) f)

  -- `parseHosts`: none if the directory cannot be read.
  unfoldable pub parse_hosts : Option (List (Option Bytes)) → Option Found
  unfolding walk
  parse_hosts none = none
  parse_hosts (some files) =
      some (walk files (record { hosts = []; count = 0; total_count = 0; service_count = 0 }))
