-- ===== src/Olsr/Hosts/Account.antt =====
-- internal/services/olsr/hosts_parser.go: what becomes of the names that are counted.
use mesh_manager.Common.{
  ℕ, suc, ◌+◌, ◌≤◌, ◌≡◌, refl, inl, inr, Bool, not, List, [], ◌∷◌, ◌++◌, Option, some, Bytes, equal,
  length, length-append, ap, split, trim_space, fields, store, select, arith, Bool-cases,
  Option-cases,
}
use mesh_manager.Net.{Ip, parse_ip}
use mesh_manager.Olsr.{HostData, Host, same_ip}
use mesh_manager.Olsr.Hosts.{
  Orphan, Reading, Line, ignored, entry, read_line, add_child, is_child_of, as_children, add_entry,
  name_entry, two_fields, take_line, read_lines, nothing_read, read_hosts,
}

-- The number of children under all hosts.
abbrev pub child_count : List Host → ℕ
child_count [] = 0
child_count (h ∷ hs) = length h.children + child_count hs

-- The names that were counted are at least those of hosts, children and orphans together: an orphan
-- is dropped only for a later one of its name.
abbrev pub Accounted : Reading → Type 0
Accounted r = length r.hosts + (child_count r.hosts + length r.orphans) ≤ r.total_count

child_count-append : (hs ks : List Host) → child_count (hs ++ ks) ≡ child_count hs + child_count ks
child_count-append [] ks = omega arith
child_count-append (h ∷ hs) ks = omega (arith, child_count-append hs ks)

select-parts :
    {A : Type 0} (p : A → Bool) (xs : List A)
    → length (select p xs) + length (select (λ x. not (p x)) xs) ≡ length xs
select-parts p [] = omega arith
select-parts p (x ∷ xs) = ground (arith, select-parts p xs)

length-as_children : (os : List (Bytes × Orphan)) → length (as_children os) ≡ length os
length-as_children [] = refl
length-as_children ((name, o) ∷ os) = omega (arith, length-as_children os)

length-store :
    {A : Type 0} (x : Bytes) (a : A) (m : List (Bytes × A)) → length (store x a m) ≤ suc (length m)
unfolding store
length-store x a [] = omega arith
length-store x a ((y, b) ∷ m) = ground (arith, length-store x a m)

inside : {A : Type 0} (a b : A) → some a ≡ some b → a ≡ b
inside a b e = cc

child_count-add_child :
    (child : HostData) (parent : Option Ip) (hs ks : List Host)
    → add_child child parent hs ≡ some ks
    → (length ks ≡ length hs) × (child_count ks ≡ suc (child_count hs))
unfolding add_child
child_count-add_child child parent [] ks e = cc
child_count-add_child child parent (h ∷ hs) ks e =
    elim (Bool-cases (same_ip (some h.self.ip) parent)) [
      | inl same ↦
          let is =
            inside (record h { children = h.children ++ child ∷ [] } ∷ hs) ks (rw same at e) in
          let longer = length-append h.children (child ∷ []) in
          (omega (arith, ap length is), omega (arith, ap child_count is, longer))
      | inr other ↦ elim (Option-cases (add_child child parent hs)) [
        | inl missing ↦ ground arith
        | inr (hs', there) ↦
            let is = inside (h ∷ hs') ks (rw (other, there) at e) in
            let (a, b) = child_count-add_child child parent hs hs' there in
            (omega (arith, ap length is, a), omega (arith, ap child_count is, b))
      ]
    ]

-- A name that is added adds to one of the three, and is counted.
add_entry-Accounted :
    (name : Bytes) (ip : Ip) (parent : Option Ip) (r : Reading)
    → Accounted r
    → Accounted (add_entry name ip parent r)
      × ((add_entry name ip parent r).total_count ≡ r.total_count + 1)
unfolding add_entry
add_entry-Accounted name ip parent r h = elim (Bool-cases (same_ip parent (some ip))) [
  | inl own ↦ rw own (
      let kids = as_children (select (is_child_of ip) r.orphans) in
      let host : Host = record {
        self = record { hostname = name; ip = ip; services = [] };
        children = kids;
      } in
      (
        omega (
          arith,
          h,
          length-append r.hosts (host ∷ []),
          child_count-append r.hosts (host ∷ []),
          length-as_children (select (is_child_of ip) r.orphans),
          select-parts (is_child_of ip) r.orphans,
        ),
        refl,
      ))
  | inr other ↦
      let child : HostData = record { hostname = name; ip = ip; services = [] } in
      elim (Option-cases (add_child child parent r.hosts)) [
        | inl missing ↦
            rw (other, missing)
              (
                omega (arith, h, length-store name (record { ip = ip; parent = parent }) r.orphans),
                refl,
              )
        | inr (hosts, there) ↦
            let (a, b) = child_count-add_child child parent r.hosts hosts there in
            rw (other, there) (omega (arith, h, a, b), refl)
      ]
]

name_entry-Accounted :
    (parse_v6 : Bytes → Option Bytes) (address name : Bytes) (parent : Option Ip) (r : Reading)
    → Accounted r
    → Accounted (name_entry parse_v6 address name parent r)
unfolding name_entry
name_entry-Accounted parse_v6 address name parent r h =
    elim (Option-cases (parse_ip parse_v6 address)) [
      | inl bad ↦ ground arith
      | inr (ip, good) ↦ ground (arith, (add_entry-Accounted name ip parent r h).0)
    ]

two_fields-Accounted :
    (parse_v6 : Bytes → Option Bytes) (parts : List Bytes) (parent : Option Ip) (r : Reading)
    → Accounted r
    → Accounted (two_fields parse_v6 parts parent r)
two_fields-Accounted parse_v6 [] parent r h = h
two_fields-Accounted parse_v6 (a ∷ []) parent r h = h
two_fields-Accounted parse_v6 (a ∷ b ∷ []) parent r h =
    name_entry-Accounted parse_v6 (trim_space a) (trim_space b) parent r h
two_fields-Accounted parse_v6 (a ∷ b ∷ c ∷ parts) parent r h = h

take_line-Accounted :
    (parse_v6 : Bytes → Option Bytes) (line : Line) (r : Reading)
    → Accounted r
    → Accounted (take_line parse_v6 line r)
take_line-Accounted parse_v6 ignored r h = h
take_line-Accounted parse_v6 (entry text parent) r h =
    elim (Bool-cases (equal (trim_space text) [])) [
      | inl e ↦ rw e h
      | inr e ↦ rw e (two_fields-Accounted parse_v6 (fields text) parent r h)
    ]

read_lines-Accounted :
    (parse_v6 : Bytes → Option Bytes) (lines : List Bytes) (r : Reading)
    → Accounted r
    → Accounted (read_lines parse_v6 lines r)
unfolding read_lines
read_lines-Accounted parse_v6 [] r h = h
read_lines-Accounted parse_v6 (line ∷ lines) r h =
    read_lines-Accounted parse_v6 lines (take_line parse_v6 (read_line parse_v6 line) r)
      (take_line-Accounted parse_v6 (read_line parse_v6 line) r h)

-- Of any file, the hosts, the children under them and the names left without a parent are together
-- no more than the names that were counted.
pub read_hosts-Accounted :
    (parse_v6 : Bytes → Option Bytes) (file : Bytes) → Accounted (read_hosts parse_v6 file)
unfolding read_hosts
read_hosts-Accounted parse_v6 file =
    read_lines-Accounted parse_v6 (split 10 file) nothing_read (omega arith)
