-- ===== src/Watcher/Reconcile.antt =====
-- internal/ifacewatcher/watcher.go, `reconcileDB`. The error of `Save` is not read: the table is
-- then as it was.
use mesh_manager.Common.{
  ℕ, ◌+◌, ◌≡◌, true, false, List, [], ◌∷◌, ◌++◌, Option, none, some, if◌then◌else◌, Bytes,
  find_first, ◌==◌,
}
use mesh_manager.Models.{Tunnel, TunnelStore}
use mesh_manager.Watcher.{Iface, Event, tunnel_connection, tunnel_disconnection, tunnel_stats}

-- The tunnel of an interface that has gone.
abbrev pub mark_inactive : Tunnel → Tunnel
mark_inactive t = record t {
  active = false;
  tunnel_interface = [];
  rx_bytes_per_sec = 0;
  tx_bytes_per_sec = 0;
  total_rx = t.total_rx + t.rx_bytes;
  total_tx = t.total_tx + t.tx_bytes;
  rx_bytes = 0;
  tx_bytes = 0;
}

-- The tunnel of an interface that has come, by its name and the time.
abbrev pub mark_active : Bytes → ℕ → Tunnel → Tunnel
mark_active name now t = record t { active = true; tunnel_interface = name; connection_time = now }

pub record Reconciled (Db : Type 0) : Type 0 where
  pub db : Db
  pub interfaces : List Iface
  pub events : List Event

module _ (s : TunnelStore) where
  open s use {Db, save}

  abbrev pub saved : Db → Tunnel → Db
  saved d t = elim (save d t) [ none ↦ d | some d' ↦ d' ]

  -- The first loop, over the interfaces to mark inactive: the table and the events.
  pub mark_gone : Db → List Event → List Iface → Db × List Event
  mark_gone d es [] = (d, es)
  mark_gone d es (i ∷ is) =
      let t = mark_inactive i.tunnel in
      mark_gone (saved d t) (es ++ tunnel_disconnection t.id t.client ∷ tunnel_stats t ∷ []) is

  -- The second loop, over the watched interfaces.
  abbrev activate : ℕ → Iface → Iface
  activate now i =
      if i.tunnel.active then i else record i { tunnel = mark_active i.net.name now i.tunnel }

  abbrev activation : ℕ → Iface → List Event
  activation now i =
      if i.tunnel.active then [] else tunnel_connection i.tunnel.id i.tunnel.client now ∷ []

  pub mark_watched : ℕ → Db → List Event → List Iface → Reconciled Db
  mark_watched now d es [] = record { db = d; interfaces = []; events = es }
  mark_watched now d es (i ∷ is) =
      let d' : Db = if i.tunnel.active then d else saved d (mark_active i.net.name now i.tunnel) in
      let r = mark_watched now d' (es ++ activation now i) is in
      record r { interfaces = activate now i ∷ r.interfaces }

  unfoldable pub reconcile : ℕ → Db → List Iface → List Iface → Reconciled Db
  unfolding mark_gone mark_watched
  reconcile now d inactive watched =
      let (d', es) = mark_gone d [] inactive in mark_watched now d' es watched

module _ (s : TunnelStore) where
  open s use {Db, save, rows}

  -- The row under an id, as it is read.
  abbrev pub row_of : ℕ → Db → Option Tunnel
  row_of id d = find_first (λ x. x.id == id) (rows d)

  abbrev pub NotFor : ℕ → Iface → Type 0
  NotFor id i = (i.tunnel.id == id) ≡ false
