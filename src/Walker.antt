-- ===== src/Walker.antt =====
-- internal/walker/walker/walk.go and internal/walker/concurrentarray/concurrentarray.go: the nodes
-- that a walk through the mesh has seen, and the tasks for those that it has not fetched. A
-- response is a parameter: the names of the hosts that a node lists.
pub mod Retry
pub mod Steps
mod Tests
use mesh_manager.Common.{
  ℕ, suc, ◌+◌, Bool, true, false, not, ◌&&◌, ◌||◌, List, [], ◌∷◌, ◌++◌, Option, none, some, Bytes,
  codes, equal, any, length, drop, leb, ◌==◌, if◌then◌else◌, has_prefix, to_upper,
}

-- `ConcurrentArray`, whose operations each hold the lock from begin to end.
unfoldable pub array_contains : Bytes → List Bytes → Bool
array_contains value items = any (λ item. equal item value) items

unfoldable pub contains_or_set : Bytes → List Bytes → Bool × List Bytes
unfolding array_contains
contains_or_set value items =
    if array_contains value items then (true, items) else (false, items ++ value ∷ [])

pub array_append : Bytes → List Bytes → List Bytes
array_append value items = items ++ value ∷ []

unfoldable pub array_remove : Bytes → List Bytes → List Bytes
array_remove value [] = []
array_remove value (item ∷ items) =
    if equal item value then items else item ∷ array_remove value items

-- `strings.HasSuffix`.
unfoldable pub has_suffix : Bytes → Bytes → Bool
has_suffix [] suffix = equal [] suffix
has_suffix (c ∷ cs) suffix = equal (c ∷ cs) suffix || has_suffix cs suffix

-- `^mid[0-9]+\.`: behind `mid`, with or without a digit read.
unfoldable pub mid_rest : Bool → Bytes → Bool
mid_rest digit [] = false
mid_rest digit (c ∷ cs) =
    let more = mid_rest true cs in if leb b'0' c && leb c b'9' then more else digit && c == b'.'

unfoldable pub is_mid : Bytes → Bool
unfolding mid_rest
is_mid name = has_prefix name (codes "mid") && mid_rest false (drop 3 name)

-- The hosts of a response that are passed over.
unfoldable pub passed_over : Bytes → Bool
unfolding has_suffix is_mid
passed_over name =
    (has_prefix name (codes "lan.") && has_suffix name (codes ".local.mesh")) || is_mid name

-- A walk: the names seen, in upper case; the tasks that wait, by host name; the nodes whose tasks
-- have begun; for each answer whose loop is not done, the hosts that are left; `TotalCount`; and
-- the number of responses sent.
pub record Walk : Type 0 where
  pub seen : List Bytes
  pub waiting : List Bytes
  pub ran : List Bytes
  pub visiting : List (List Bytes)
  pub total_count : ℕ
  pub responses : ℕ

-- The body of the loop over the hosts of a response.
unfoldable pub visit_host : Bytes → Walk → Walk
unfolding passed_over contains_or_set
visit_host name w =
    let (known, seen) = contains_or_set (to_upper name) w.seen in
    if passed_over name || known
    then w
    else record w { seen = seen; waiting = w.waiting ++ name ∷ []; total_count = w.total_count + 1 }

-- The hosts that a node lists. On an error there is no loop.
abbrev pub hosts_of : Option (List Bytes) → List Bytes
hosts_of none = []
hosts_of (some names) = names

-- A task begins: it leaves the queue, and `walk` gets the node's answer, which is the names of its
-- hosts, or an error.
unfoldable pub begin_task : Bytes → Option (List Bytes) → Walk → Walk
begin_task node answer w = record w {
  ran = w.ran ++ node ∷ [];
  visiting = hosts_of answer ∷ w.visiting;
}

-- A task ends: a response is sent, whether it failed or not.
unfoldable pub end_task : Walk → Walk
end_task w = record w { responses = w.responses + 1 }

-- `NewWalker`.
abbrev pub no_walk : Walk
no_walk = record {
  seen = [];
  waiting = [];
  ran = [];
  visiting = [];
  total_count = 0;
  responses = 0;
}

-- `Walk` up to the answer of the starting node, of which an error is returned. The loop over its
-- hosts runs beside the first tasks, and its response is sent after it.
unfoldable pub start_walk : Option (List Bytes) → Option Walk
start_walk none = none
start_walk (some names) = some (record no_walk { visiting = names ∷ [] })
