-- ===== src/Watcher/Pass.antt =====
-- internal/ifacewatcher/watcher.go: `watch` as a whole, and what a pass leaves.
use mesh_manager.Common.{List, [], ◌++◌, Option, none, some}
use mesh_manager.Models.{TunnelStore}
use mesh_manager.Bandwidth.Manager.{Manager}
use mesh_manager.Watcher.{NetInterface, Iface, Event, Host}
use mesh_manager.Watcher.Drop.{live, sweep}
use mesh_manager.Watcher.Attach.{attach}
use mesh_manager.Watcher.Reconcile.{reconcile}

pub record Watcher (Db : Type 0) : Type 0 where
  pub interfaces : List Iface
  pub inactive : List Iface
  pub stats : Manager
  pub db : Db
  pub events : List Event

module _ (s : TunnelStore) where
  open s use {Db}

  -- The reconciliation that ends each pass.
  finish_pass : Host → Watcher Db → List Iface → List Iface → Manager → List Event → Watcher Db
  finish_pass h w interfaces inactive stats events =
      let r = reconcile s h.now w.db inactive interfaces in
      record {
        interfaces = r.interfaces;
        inactive = inactive;
        stats = stats;
        db = r.db;
        events = w.events ++ (events ++ r.events);
      }

  -- The pass when the host's interfaces are known; none stands for a panic.
  pass_with : Host → Watcher Db → List NetInterface → Option (Watcher Db)
  unfolding finish_pass
  pass_with h w interfaces =
      let swept = sweep h interfaces w.interfaces w.stats in
      elim (attach s w.db h (record { interfaces = live swept; stats = swept.stats }) interfaces) [
        | none ↦ none
        | some g ↦ some (finish_pass h w g.interfaces swept.inactive g.stats swept.events)
      ]

  pub watch : Host → Watcher Db → Option (Watcher Db)
  unfolding pass_with
  watch h w = elim h.interfaces [
    | none ↦ some (finish_pass h w w.interfaces [] w.stats [])
    | some interfaces ↦ pass_with h w interfaces
  ]
