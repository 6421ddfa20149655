-- ===== src/Api/Listing/Passwords.antt =====
-- internal/server/api/controllers/v1/tunnels.go, `GETTunnels`: the passwords in its replies.
use mesh_manager.Common.{
  ℕ, ◌≡◌, refl, ◌⊎◌, inl, inr, Bool, true, false, List, [], ◌∷◌, Option, none, some, Bytes, map,
  All, Bool-cases,
}
use mesh_manager.Models.{Tunnel, TunnelStore}
use mesh_manager.Api.Listing.{
  ListQuery, Shown, ListReply, listing, shown, shown_with_password, show_page, found_page,
  counted_page, kind_page, limited_page, numbered_page, get_tunnels,
}

-- Who sees passwords: without a session no row has one, and no client's is shown to anyone.
abbrev pub Discreet : Bool → Shown → Type 0
Discreet user v =
    (v.password ≡ none) ⊎ ((user ≡ true) × ((v.client ≡ false) ⊎ (v.password ≡ some [])))

abbrev pub DiscreetReply : Bool → ListReply → Type 0
DiscreetReply user (listing total rows) = All (Discreet user) rows
DiscreetReply user _ = Unit

rows_hidden : (user : Bool) (ts : List Tunnel) → All (Discreet user) (map (shown none) ts)
rows_hidden user [] = tt
rows_hidden user (t ∷ ts) = (inl refl, rows_hidden user ts)

shown-Discreet : (user : Bool) (t : Tunnel) → user ≡ true → Discreet user (shown_with_password t)
shown-Discreet user t u = elim (Bool-cases t.client) [
  | inl c ↦ inr (u, inr (rw c refl))
  | inr c ↦ inr (u, inl c)
]

rows_shown :
    (user : Bool) (ts : List Tunnel)
    → user ≡ true
    → All (Discreet user) (map shown_with_password ts)
rows_shown user [] u = tt
rows_shown user (t ∷ ts) u = (shown-Discreet user t u, rows_shown user ts u)

show_page-Discreet :
    (user : Bool) (admin : Option Bool) (total : ℕ) (ts : List Tunnel)
    → DiscreetReply user (show_page user admin total ts)
unfolding show_page
show_page-Discreet user none total ts = tt
show_page-Discreet true (some true) total ts = rows_shown true ts refl
show_page-Discreet false (some true) total ts = tt
show_page-Discreet true (some false) total ts = rows_hidden true ts
show_page-Discreet false (some false) total ts = rows_hidden false ts

module _ (s : TunnelStore) (like : Bytes → Bytes → Bool) where
  open s use {Db, query, count, rows, query-rows, count-rows}

  found_page-Discreet :
      (user : Bool) (q : ListQuery) (page limit total : ℕ) (found : Option (List Tunnel))
      → DiscreetReply user (found_page s like user q page limit total found)
  found_page-Discreet user q page limit total none = tt
  found_page-Discreet user q page limit total (some found) = show_page-Discreet user _ total _

  counted_page-Discreet :
      (user : Bool) (q : ListQuery) (page limit : ℕ) (d : Db) (total : Option ℕ)
      → DiscreetReply user (counted_page s like user q page limit d total)
  counted_page-Discreet user q page limit d none = tt
  counted_page-Discreet user q page limit d (some total) =
      found_page-Discreet user q page limit total _

  kind_page-Discreet :
      (user : Bool) (q : ListQuery) (page limit : ℕ) (d : Db) (known : Bool)
      → DiscreetReply user (kind_page s like user q page limit d known)
  kind_page-Discreet user q page limit d false = tt
  kind_page-Discreet user q page limit d true = counted_page-Discreet user q page limit d _

  limited_page-Discreet :
      (user : Bool) (q : ListQuery) (page : ℕ) (d : Db) (limit : Option ℕ)
      → DiscreetReply user (limited_page s like user q page d limit)
  limited_page-Discreet user q page d none = tt
  limited_page-Discreet user q page d (some limit) = kind_page-Discreet user q page limit d _

  numbered_page-Discreet :
      (user : Bool) (q : ListQuery) (d : Db) (page : Option ℕ)
      → DiscreetReply user (numbered_page s like user q d page)
  numbered_page-Discreet user q d none = tt
  numbered_page-Discreet user q d (some page) = limited_page-Discreet user q page d _

  -- Whatever is asked for, a list of tunnels shows a password only in a session, and then none of a
  -- client's tunnel.
  pub get_tunnels-DiscreetReply :
      (user : Bool) (q : ListQuery) (d : Db) → DiscreetReply user (get_tunnels s like user q d)
  unfolding get_tunnels
  get_tunnels-DiscreetReply user q d = numbered_page-Discreet user q d _
