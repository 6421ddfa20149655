-- ===== src/Watcher/Drop.antt =====
-- internal/ifacewatcher/watcher.go: the first loop of `watch`. `range` reads the slice that the
-- loop started with, while `remove` shifts the cells of the same array: the array and the length of
-- `w.interfaces` are modelled, not the list.
use mesh_manager.Common.{
  ℕ, zero, suc, ◌+◌, ◌≡◌, refl, inl, inr, Bool, true, false, not, ◌&&◌, ◌||◌, List, [], ◌∷◌, ◌++◌,
  Option, none, some, if◌then◌else◌, length, take, drop, get_elem?, arith, equal_self, All,
  All-append, All-drop, All-drop-suc, All-get_elem?, take-length, take-length-append, Option-cases,
  load,
}
use native.Mathlib.Numerals.{add-one}
use mesh_manager.Bandwidth.Manager.{Manager, remove, remove-load}
use mesh_manager.Bandwidth.{Counter}
use mesh_manager.Watcher.{
  NetInterface, Iface, Event, tunnel_disconnection, Host, same_interface, net_contains, is_wg,
  is_tun, wg_interface_active,
}

-- `remove(s, e)` on the elements that a slice shows.
pub remove_first : List Iface → Iface → List Iface
unfolding same_interface
remove_first [] e = []
remove_first (a ∷ s) e = if same_interface a.net e.net then s else a ∷ remove_first s e

-- The cells behind the elements that are left stay as they were.
abbrev pub shifted : List Iface → List Iface → List Iface
shifted kept cells = kept ++ drop (length kept) cells

pub record Sweep : Type 0 where
  pub cells : List Iface
  pub len : ℕ
  pub inactive : List Iface
  pub stats : Manager
  pub events : List Event

-- `w.interfaces`.
abbrev pub live : Sweep → List Iface
live w = take w.len w.cells

-- The test on the host that makes a watched interface one to drop.
unfoldable pub gone : Host → List NetInterface → Iface → Bool
unfolding is_wg is_tun wg_interface_active net_contains
gone h interfaces e =
    (is_wg e.net.name && not (wg_interface_active h e.net.name))
    || (is_tun e.net.name && not (net_contains interfaces e.net))

abbrev pub farewell : Iface → Event
farewell e = tunnel_disconnection e.tunnel.id e.tunnel.client

-- The body of the loop for an interface that is gone; on an error of `Remove` the loop goes on.
abbrev pub take_out : Sweep → Iface → Sweep
take_out w e =
    let kept = remove_first (live w) e in
    record w {
      cells = shifted kept w.cells;
      len = length kept;
      inactive = w.inactive ++ e ∷ [];
      stats = (remove w.stats e.net.name).1;
      events = w.events ++ farewell e ∷ [];
    }

pub drop_one : Sweep → Iface → Sweep
drop_one w e = elim (remove w.stats e.net.name).0 [
  | none ↦ take_out w e
  | some err ↦ record w { events = w.events ++ farewell e ∷ [] }
]

pub visit : Host → List NetInterface → Sweep → Iface → Sweep
visit h interfaces w e = if gone h interfaces e then drop_one w e else w

-- The loop from index `i`, with the rounds that are left.
abbrev visit_cell : Host → List NetInterface → Sweep → Option Iface → Sweep
visit_cell h interfaces w none = w
visit_cell h interfaces w (some e) = visit h interfaces w e

pub sweep_from : Host → List NetInterface → ℕ → ℕ → Sweep → Sweep
sweep_from h interfaces zero i w = w
sweep_from h interfaces (suc k) i w =
    sweep_from h interfaces k (i + 1) (visit_cell h interfaces w (get_elem? w.cells i))

-- The whole loop over the watched interfaces.
unfoldable pub sweep : Host → List NetInterface → List Iface → Manager → Sweep
unfolding sweep_from visit drop_one
sweep h interfaces watched stats =
    sweep_from h interfaces (length watched) 0
      (record { cells = watched; len = length watched; inactive = []; stats = stats; events = [] })

-- An interface has the identity of itself.
pub same_interface_self : (e : NetInterface) → same_interface e e ≡ true
unfolding same_interface
same_interface_self e = ground (arith, equal_self e.name, equal_self e.hardware_addr)

module _ (h : Host) (interfaces : List NetInterface) where
  abbrev pub Stays : Iface → Type 0
  Stays e = gone h interfaces e ≡ false

  -- A loop that reads only interfaces that are not gone changes nothing.
  sweep_from_idle :
      (k i : ℕ) (w : Sweep) → All Stays (drop i w.cells) → sweep_from h interfaces k i w ≡ w
  unfolding sweep_from visit
  sweep_from_idle zero i w idle = refl
  sweep_from_idle (suc k) i w idle = elim (Option-cases (get_elem? w.cells i)) [
    | inl past ↦
        rw past (sweep_from_idle k (i + 1) w (rw add-one (All-drop-suc Stays i w.cells idle)))
    | inr (e, read) ↦
        rw (read, All-get_elem? Stays i w.cells e idle read)
          (sweep_from_idle k (i + 1) w (rw add-one (All-drop-suc Stays i w.cells idle)))
  ]

  -- After the first interface is taken out, the cells from the third one on are shown.
  module _ (stats : Manager) (a b c : Iface) (rest : List Iface) where
    abbrev pub watched : List Iface
    watched = a ∷ b ∷ c ∷ rest

    abbrev after_first : Sweep
    after_first =
        take_out
          (record {
            cells = watched;
            len = length watched;
            inactive = [];
            stats = stats;
            events = [];
          })
          a

    kept_first : remove_first (take (length watched) watched) a ≡ b ∷ c ∷ rest
    unfolding remove_first
    kept_first = rw (same_interface_self a.net, take-length rest)

    first_visit :
        (k : Counter)
        → gone h interfaces a ≡ true
        → load a.net.name stats.counters ≡ some k
        → sweep h interfaces watched stats
          ≡ sweep_from h interfaces (suc (suc (length rest))) 1 after_first
    unfolding sweep
    first_visit k ga e = ground (arith, remove-load stats a.net.name k e)

    -- When the first of three or more watched interfaces is gone and its counter is there, and none
    -- from the third on is gone, the second is not looked at: it stays among the watched
    -- interfaces in this pass, though it may be gone too.
    pub sweep_skips :
        (k : Counter)
        → gone h interfaces a ≡ true
        → All Stays (c ∷ rest)
        → load a.net.name stats.counters ≡ some k
        → (live (sweep h interfaces watched stats) ≡ b ∷ c ∷ rest)
          × ((sweep h interfaces watched stats).inactive ≡ a ∷ [])
          × ((sweep h interfaces watched stats).events ≡ farewell a ∷ [])
    sweep_skips k ga stay e =
        rw (first_visit k ga e, sweep_from_idle (suc (suc (length rest))) 1 after_first idle)
          (rw (kept_first) (take-length-append (b ∷ c ∷ rest) _), refl, refl)
      where
        idle : All Stays (drop 1 after_first.cells)
        idle =
            rw kept_first
              (All-append Stays (c ∷ rest) _ stay (All-drop Stays (length rest) (c ∷ rest) stay))
