-- ===== src/Meshlink/State.antt =====
-- internal/services/meshlink/parser.go, `Parser`: `Parse` in the parts that run without a pause,
-- since calls of it overlap. Modification times are in nanoseconds.
pub mod Overlap
use mesh_manager.Common.{
  ℕ, zero, suc, ◌+◌, ◌*◌, ◌≤◌, ◌<◌, ◌≡◌, refl, Bool, true, false, not, ◌&&◌, List, [], ◌∷◌, Option,
  none, some, Bytes, length, select, take, drop, leb, ltb, ◌==◌, if◌then◌else◌, contains, to_lower,
  arith, ap, ◌∙◌,
}
use mesh_manager.Olsr.Pages.{page_start, page_end, page_of}
use mesh_manager.Meshlink.{Host}

pub record Parser : Type 0 where
  pub current_hosts : List Host
  pub nodes_count : ℕ
  pub total_count : ℕ
  pub service_count : ℕ
  pub is_parsing : Bool
  pub need_parse : Bool
  pub last_mod_time : ℕ

pub get_total_hosts_count : Parser → ℕ
get_total_hosts_count p = p.total_count + p.nodes_count

abbrev pub filtered : Bytes → List Host → List Host
filtered filter hosts = select (λ h. contains (to_lower h.self.hostname) (to_lower filter)) hosts

pub get_hosts_paginated : ℕ → ℕ → Bytes → List Host → Option (List Host)
unfolding page_of
get_hosts_paginated page limit filter hosts =
    page_of (page_start page limit) (page_end page limit) (filtered filter hosts)

-- How a call of `Parse` begins.
pub data Begun : Type 0 where
  up_to_date : Parser → Begun
  noted : Parser → Begun
  begun : ℕ → Parser → Begun

-- The newest time among the files, or `now` if it is zero.
abbrev pub latest_of : ℕ → ℕ → ℕ
latest_of now newest = if newest == 0 then now else newest

unfoldable pub begin : ℕ → Parser → Begun
begin latest p =
    if not (p.last_mod_time == 0) && leb latest p.last_mod_time
    then up_to_date p
    else if p.is_parsing
    then noted (record p { need_parse = true })
    else begun latest (record p { is_parsing = true })

-- Once the files are read: the new hosts and counts, and whether a goroutine is started that parses
-- again. An error leaves everything.
unfoldable pub publish : ℕ → Option (List Host × ℕ × ℕ × ℕ) → Parser → Parser × Bool
publish latest none p = (p, false)
publish latest (some (hosts, nodes, total, services)) p = (
  record p {
    current_hosts = hosts;
    nodes_count = nodes;
    total_count = total;
    service_count = services;
    last_mod_time = latest;
  },
  p.need_parse,
)

-- The deferred store, as `Parse` returns.
abbrev pub leave : Parser → Parser
leave p = record p { is_parsing = false }

-- The goroutine.
abbrev pub again : ℕ → Parser → Begun
again latest p = begin latest (record p { need_parse = false })
