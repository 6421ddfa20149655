-- ===== src/Meshlink/Files/Counts.antt =====
-- internal/services/meshlink/parser.go, `parseHosts`: the counts, and the children of the hosts.
use mesh_manager.Common.{
  ℕ, suc, ◌+◌, ◌≤◌, ◌≡◌, refl, subst, Bool, true, false, List, [], ◌∷◌, ◌++◌, Option, none, some,
  Bytes, equal, length, length-append, All, All-append, fields, split, trim_space, arith,
  Bool-cases, inl, inr,
}
use mesh_manager.Net.{Ip}
use mesh_manager.Olsr.{Url}
use mesh_manager.Meshlink.{
  HostData, Host, is_mesh_line, service_lines, file_services, services_name,
}
use mesh_manager.Meshlink.Files.{
  is_infrastructure, add_named, new_host, take_fields, with_fields, take_line, take_lines,
  read_file, Found, Reading, add_host, walk, parse_hosts,
}

abbrev pub sum_services : List Host → ℕ
sum_services [] = 0
sum_services (h ∷ hs) = length h.self.services + sum_services hs

-- A child has an address, and is no interface of its node.
abbrev pub IsChild : HostData → Type 0
IsChild d = (is_infrastructure d.hostname ≡ false) × ((ip : Ip) × (d.ip ≡ some ip))

abbrev pub HasChildren : Host → Type 0
HasChildren h = All IsChild h.children

-- A file is read from a count of services on: it goes up by the services of the host.
abbrev OfHost : ℕ → Reading → Type 0
OfHost n (none, count) = count ≡ n
OfHost n (some h, count) = (count ≡ n + length h.self.services) × HasChildren h

sum_services-append :
    (hs : List Host) (h : Host)
    → sum_services (hs ++ h ∷ []) ≡ sum_services hs + length h.self.services
sum_services-append [] h = omega arith
sum_services-append (g ∷ hs) h = omega (arith, sum_services-append hs h)

add_named_services :
    (name : Bytes) (ip : Option Ip) (h : Host)
    → length (add_named name ip h).self.services ≡ length h.self.services
add_named_services name none h = refl
add_named_services name (some ip) h = ground arith

service_lines_counted :
    (parse_url : Bytes → Option Url) (lines : List Bytes) (n : ℕ)
    → (service_lines parse_url lines n).1 ≡ n + length (service_lines parse_url lines n).0
unfolding service_lines
service_lines_counted parse_url [] n = omega arith
service_lines_counted parse_url (line ∷ lines) n =
    ground (
      arith,
      service_lines_counted parse_url lines n,
      service_lines_counted parse_url lines (n + 1),
    )

file_services_counted :
    (parse_url : Bytes → Option Url) (file : Option Bytes) (n : ℕ)
    → (file_services parse_url file n).1 ≡ n + length (file_services parse_url file n).0
file_services_counted parse_url none n = omega arith
file_services_counted parse_url (some file) n = service_lines_counted parse_url (split 10 file) n

add_named-HasChildren :
    (name : Bytes) (ip : Option Ip) (h : Host) → HasChildren h → HasChildren (add_named name ip h)
add_named-HasChildren name none h k = k
add_named-HasChildren name (some ip) h k = elim (Bool-cases (is_infrastructure name)) [
  | inl e ↦ rw e k
  | inr e ↦ rw e (All-append IsChild h.children _ k ((e, (ip, refl)), tt))
]

-- The counts are those of the hosts, of which there is at most one for each file that was walked.
abbrev pub IsCounted : ℕ → Found → Type 0
IsCounted files f =
    (f.count ≡ length f.hosts)
    × (f.count ≤ f.total_count)
    × (f.total_count ≡ files)
    × (f.service_count ≡ sum_services f.hosts)
    × All HasChildren f.hosts

add_host-IsCounted :
    (n : ℕ) (r : Reading) (f : Found)
    → OfHost f.service_count r
    → IsCounted n f
    → IsCounted (suc n) (add_host r f)
add_host-IsCounted n (none, count) f k c =
    (c.0, omega arith, omega arith, omega (arith, k, c.3), c.4)
add_host-IsCounted n (some h, count) f k c = (
  omega (arith, length-append f.hosts (h ∷ [])),
  omega arith,
  omega arith,
  omega (arith, sum_services-append f.hosts h, k.0, c.3),
  All-append HasChildren f.hosts (h ∷ []) c.4 (k.1, tt),
)

module _ (parse_v6 : Bytes → Option Bytes) (parse_url : Bytes → Option Url)
    (services_file : Bytes → Option Bytes) where
  new_host-OfHost :
      (name : Bytes) (ip : Option Ip) (n : ℕ)
      → OfHost n (new_host parse_v6 parse_url services_file name ip n)
  new_host-OfHost name none n = (omega arith, tt)
  new_host-OfHost name (some ip) n =
      (file_services_counted parse_url (services_file (services_name ip)) n, tt)

  take_fields-OfHost :
      (starts : Bool) (address name : Bytes) (n : ℕ) (r : Reading)
      → OfHost n r
      → OfHost n (take_fields parse_v6 parse_url services_file starts address name r)
  take_fields-OfHost true address name n (none, count) k =
      subst
        (λ m.
          OfHost m (take_fields parse_v6 parse_url services_file true address name (none, count)))
        k (new_host-OfHost _ _ count)
  take_fields-OfHost false address name n (none, count) k = k
  take_fields-OfHost starts address name n (some h, count) k =
      (omega (arith, k.0, add_named_services _ _ h), add_named-HasChildren _ _ h k.1)

  with_fields-OfHost :
      (starts : Bool) (words : List Bytes) (n : ℕ) (r : Reading)
      → OfHost n r
      → OfHost n (with_fields parse_v6 parse_url services_file starts words r)
  with_fields-OfHost starts [] n r k = k
  with_fields-OfHost starts (a ∷ []) n r k = k
  with_fields-OfHost starts (a ∷ b ∷ more) n r k = take_fields-OfHost starts a b n r k

  take_lines-OfHost :
      (lines : List Bytes) (n : ℕ) (r : Reading)
      → OfHost n r
      → OfHost n (take_lines parse_v6 parse_url services_file lines r)
  unfolding take_lines take_line
  take_lines-OfHost [] n r k = k
  take_lines-OfHost (line ∷ lines) n r k = elim (Bool-cases (equal (trim_space line) [])) [
    | inl e ↦ rw e (take_lines-OfHost lines n r k)
    | inr e ↦
        rw e
          (take_lines-OfHost lines n _ (with_fields-OfHost (is_mesh_line line) (fields line) n r k))
  ]

  read_file-OfHost :
      (file : Option Bytes) (n : ℕ) → OfHost n (read_file parse_v6 parse_url services_file file n)
  read_file-OfHost none n = take_lines-OfHost (split 10 []) n (none, n) refl
  read_file-OfHost (some file) n = take_lines-OfHost (split 10 file) n (none, n) refl

  walk-IsCounted :
      (files : List (Option Bytes)) (n : ℕ) (f : Found)
      → IsCounted n f
      → IsCounted (n + length files) (walk parse_v6 parse_url services_file files f)
  unfolding walk
  walk-IsCounted [] n f c = subst (λ m. IsCounted m f) (omega arith) c
  walk-IsCounted (file ∷ files) n f c =
      let g = add_host (read_file parse_v6 parse_url services_file file f.service_count) f in
      subst (λ m. IsCounted m (walk parse_v6 parse_url services_file files g)) (omega arith)
        (walk-IsCounted files (suc n) g
          (add_host-IsCounted n _ f (read_file-OfHost file f.service_count) c))

  -- When the directory can be read, `parseHosts` gives counts that fit the hosts: the count of
  -- nodes is their number, which is at most that of the files; the total count is the number of
  -- files; and the count of services is that of the hosts' own. Every child of a host has an
  -- address, and its name is none of those that a node gives to its interfaces.
  pub parse_hosts-IsCounted :
      (files : List (Option Bytes))
      → (f : Found) × (parse_hosts parse_v6 parse_url services_file (some files) ≡ some f)
        × IsCounted (length files) f
  unfolding parse_hosts
  parse_hosts-IsCounted files =
      let start : Found = record { hosts = []; count = 0; total_count = 0; service_count = 0 } in
      let f = walk parse_v6 parse_url services_file files start in
      (
        f,
        refl,
        subst (λ n. IsCounted n f) (omega arith)
            (walk-IsCounted files 0 start (refl, omega arith, refl, refl, tt)),
      )
