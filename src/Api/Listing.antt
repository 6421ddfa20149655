-- ===== src/Api/Listing.antt =====
-- internal/server/api/controllers/v1/tunnels.go, `GETTunnels`: the page of tunnels, and who is
-- shown their passwords. How the database matches a name in capitals with a pattern is the
-- parameter `like`.
pub mod Passwords
use mesh_manager.Common.{
  ℕ, suc, ◌+◌, ◌-◌, ◌*◌, ◌%◌, ◌≤◌, ◌<◌, ◌≡◌, ◌≢◌, refl, ap, sym, ◌∙◌, ◌⊎◌, inl, inr, Bool, true,
  false, not, ◌&&◌, ◌||◌, List, [], ◌∷◌, ◌++◌, Option, none, some, Bytes, codes, ℤ, pos, negsuc,
  parse_int, length, take, drop, select, map, any, All, equal, leb, ltb, ◌==◌, if◌then◌else◌,
  to_upper, arith, Option-cases, Bool-cases,
}
use mesh_manager.Models.{Tunnel, TunnelStore}

-- The query of a request: each parameter is there or not.
pub record ListQuery : Type 0 where
  pub kind : Option Bytes
  pub filter : Option Bytes
  pub page : Option Bytes
  pub limit : Option Bytes
  pub admin : Option Bytes

-- A row as it is shown: without a password column, or with one. The figures of traffic, the port
-- and the dates are left out.
pub record Shown : Type 0 where
  pub id : ℕ
  pub hostname : Bytes
  pub ip : Bytes
  pub enabled : Bool
  pub active : Bool
  pub client : Bool
  pub is_wireguard : Bool
  pub connection_time : ℕ
  pub password : Option Bytes

pub data ListReply : Type 0 where
  bad_request : ListReply
  unauthorized : ListReply
  failed_query : ListReply
  listing : ℕ → List Shown → ListReply

abbrev pub or_default : Option Bytes → Bytes → Bytes
or_default none text = text
or_default (some given) text = given

-- `ParseInt(text, 10, 64)`, and the test that the number is at least 1.
abbrev pub at_least_one : Option ℤ → Option ℕ
at_least_one none = none
at_least_one (some (negsuc n)) = none
at_least_one (some (pos n)) = if ltb n 1 then none else some n

unfoldable pub positive_number : Bytes → Option ℕ
positive_number text = at_least_one (parse_int 9223372036854775807 text)

-- `strconv.ParseBool`.
unfoldable pub parse_bool : Bytes → Option Bool
parse_bool text =
    if any (equal text) (map codes ("1" ∷ "t" ∷ "T" ∷ "TRUE" ∷ "true" ∷ "True" ∷ []))
    then some true
    else if any (equal text) (map codes ("0" ∷ "f" ∷ "F" ∷ "FALSE" ∷ "false" ∷ "False" ∷ []))
    then some false
    else none

-- `Offset` with a 64-bit integer: one that is not positive is no offset.
abbrev pub from_offset : ℕ → List Tunnel → List Tunnel
from_offset offset rows = if leb 9223372036854775808 offset then rows else drop offset rows

abbrev pub offset_of : ℕ → ℕ → ℕ
offset_of page limit = ((page - 1) * limit) % 18446744073709551616

abbrev pub shown : Option Bytes → Tunnel → Shown
shown password t = record {
  id = t.id;
  hostname = t.hostname;
  ip = t.ip;
  enabled = t.enabled;
  active = t.active;
  client = t.client;
  is_wireguard = t.is_wireguard;
  connection_time = t.connection_time;
  password = password;
}

-- A client's password is not shown to the administrator.
abbrev pub shown_with_password : Tunnel → Shown
shown_with_password t = shown (some (if t.client then [] else t.password)) t

abbrev pub show_rows : Bool → List Tunnel → List Shown
show_rows true rows = map shown_with_password rows
show_rows false rows = map (shown none) rows

-- The administrator's view needs a session; `user` tells whether it has one.
unfoldable pub show_page : Bool → Option Bool → ℕ → List Tunnel → ListReply
show_page user none total rows = bad_request
show_page user (some admin) total rows =
    if admin && not user then unauthorized else listing total (show_rows admin rows)

module _ (s : TunnelStore) (like : Bytes → Bytes → Bool) where
  open s use {Db, query, count, rows, query-rows, count-rows}

  abbrev pub matches : Bytes → Tunnel → Bool
  matches filter t =
      t.is_wireguard
      && (equal filter [] || like t.hostname (codes "%" ++ to_upper filter ++ codes "%"))

  -- The page of what `Find` returned.
  abbrev pub found_page : Bool → ListQuery → ℕ → ℕ → ℕ → Option (List Tunnel) → ListReply
  found_page user q page limit total none = failed_query
  found_page user q page limit total (some found) =
      show_page user (parse_bool (or_default q.admin (codes "false"))) total
        (take limit (from_offset (offset_of page limit) found))

  abbrev pub counted_page : Bool → ListQuery → ℕ → ℕ → Db → Option ℕ → ListReply
  counted_page user q page limit d none = failed_query
  counted_page user q page limit d (some total) =
      found_page user q page limit total (query d (matches (or_default q.filter [])))

  -- The switch over the kind of tunnel, then `Count`, then `Find` with its limit and offset.
  abbrev pub kind_page : Bool → ListQuery → ℕ → ℕ → Db → Bool → ListReply
  kind_page user q page limit d false = bad_request
  kind_page user q page limit d true =
      counted_page user q page limit d (count d (matches (or_default q.filter [])))

  abbrev pub limited_page : Bool → ListQuery → ℕ → Db → Option ℕ → ListReply
  limited_page user q page d none = bad_request
  limited_page user q page d (some limit) =
      kind_page user q page limit d
        (equal (or_default q.kind (codes "wireguard")) (codes "wireguard"))

  abbrev pub numbered_page : Bool → ListQuery → Db → Option ℕ → ListReply
  numbered_page user q d none = bad_request
  numbered_page user q d (some page) =
      limited_page user q page d (positive_number (or_default q.limit (codes "10")))

  unfoldable pub get_tunnels : Bool → ListQuery → Db → ListReply
  get_tunnels user q d = numbered_page user q d (positive_number (or_default q.page (codes "1")))
