-- ===== src/Meshlink/State/Overlap.antt =====
-- internal/services/meshlink/parser.go, `Parse`: calls that overlap, and pages.
use mesh_manager.Common.{
  ℕ, ◌+◌, ◌*◌, ◌≤◌, ◌<◌, ◌≡◌, true, false, List, some, Bytes, length, take, drop, arith,
}
use mesh_manager.Olsr.Pages.{page_of-page}
use mesh_manager.Meshlink.{Host}
use mesh_manager.Meshlink.State.{
  Parser, filtered, get_hosts_paginated, up_to_date, noted, begun, begin, publish, leave, again,
}

-- A parser whose files are newer than what it has parsed, before and after it is told of a change.
module _ (p : Parser) (first second third : ℕ) (found : List Host × ℕ × ℕ × ℕ) where
  abbrev pub working : Parser
  working = record p { is_parsing = true }

  abbrev pub asked : Parser
  asked = record p { is_parsing = true; need_parse = true }

  abbrev pub published : Parser
  published = (publish first (some found) asked).0

  -- A parse goes on while a file is changed, and a second call asks for another parse. If the
  -- first ends before the goroutine that it has started runs, the new files are parsed. If the
  -- goroutine runs before the first call returns, it takes the parser to be parsing still, and
  -- only asks again: then no parse is under way, and the files of the second call are not read.
  -- The times are later and later, from one on.
  pub again_overlap :
      p.is_parsing ≡ false
      → p.last_mod_time < first
      → first < second
      → second ≤ third
      → (begin first p ≡ begun first working)
        × (begin second working ≡ noted asked)
        × ((publish first (some found) asked).1 ≡ true)
        × (again third (leave published) ≡ begun third (record published { need_parse = false }))
        × (again third published ≡ noted published)
        × ((leave published).is_parsing ≡ false)
        × ((leave published).last_mod_time ≡ first)
  unfolding begin publish
  again_overlap idle later newer newest = ground arith

  -- What was parsed is not parsed again: a call that finds no newer file changes nothing, whether
  -- it comes before or after the first has returned.
  pub publish-up_to_date :
      0 < first
      → second ≤ first
      → (begin second published ≡ up_to_date published)
        × (begin second (leave published) ≡ up_to_date (leave published))
  unfolding begin publish
  publish-up_to_date some_time older = ground arith

-- Page `p + 1` of the hosts that pass the filter, `limit` on each, as long as the page ends within
-- 63 bits: the hosts from position `p * limit` on, `limit` of them or as many as there are.
pub meshlink_get_hosts_paginated-page :
    (p limit : ℕ) (filter : Bytes) (hosts : List Host)
    → p < 9223372036854775808
    → p * limit + limit < 9223372036854775808
    → length (filtered filter hosts) < 9223372036854775808
    → get_hosts_paginated (p + 1) limit filter hosts
      ≡ some (take limit (drop (p * limit) (filtered filter hosts)))
unfolding get_hosts_paginated
meshlink_get_hosts_paginated-page p limit filter hosts small fits few =
    page_of-page p limit (filtered filter hosts) small fits few
