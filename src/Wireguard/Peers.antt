-- ===== src/Wireguard/Peers.antt =====
-- internal/wireguard/wireguard.go: what a peer's set-up does to the kernel, and the active peers.
use mesh_manager.Common.{
  ◌≡◌, ◌∙◌, Bool, List, none, some, Bytes, equal_self, arith, load, store, delete, load-delete,
}
use mesh_manager.Models.{Tunnel, interface_name}
use mesh_manager.Wireguard.{link_set_down, link_del, Kernel, World, done, stopped, crashed}
use mesh_manager.Wireguard.SetUp.{set_up_peer}

abbrev pub Peers : Type 0
Peers = List (Bytes × Tunnel)

-- How `addPeer` and `removePeer` end: with a confirmation, without one, or in a panic.
pub data Outcome (S : Type 0) : Type 0 where
  confirmed : S → Peers → Outcome S
  unconfirmed : S → Peers → Outcome S
  panicked : S → Peers → Outcome S

module _ (k : Kernel) where
  open k use {State, perform, link_by_name}

  unfoldable pub add_peer : World → Tunnel → State → Peers → Outcome State
  add_peer w t s peers = elim (set_up_peer k w t s) [
    | done s' _ ↦ confirmed s' (store (interface_name t) t peers)
    | stopped s' ↦ unconfirmed s' peers
    | crashed s' ↦ panicked s' peers
  ]

  -- The device is taken down and deleted.
  take_down : Bytes → State → Peers → Outcome State
  take_down iface s peers = elim (perform s (link_set_down iface)) [
    | none ↦ unconfirmed s peers
    | some s' ↦ elim (perform s' (link_del iface)) [
      | none ↦ unconfirmed s' peers
      | some s'' ↦ confirmed s'' peers
    ]
  ]

  -- `LoadAndDelete` comes first: from then on the peer is not active, whatever follows.
  unfoldable pub remove_peer : Tunnel → State → Peers → Outcome State
  unfolding take_down
  remove_peer t s peers = elim (load (interface_name t) peers) [
    | none ↦ confirmed s peers
    | some _ ↦
        let rest = delete (interface_name t) peers in
        elim (link_by_name s (interface_name t)) [
          | none ↦ confirmed s rest
          | some _ ↦ take_down (interface_name t) s rest
        ]
  ]

  -- When the kernel refuses to take the device of an active peer down, the peer is forgotten while
  -- the device stays: removing it again is confirmed at once, and leaves the kernel as it is.
  pub remove_peer_forgets :
      (t u : Tunnel) (s : State) (peers : Peers) (up : Bool)
      → load (interface_name t) peers ≡ some u
      → link_by_name s (interface_name t) ≡ some up
      → perform s (link_set_down (interface_name t)) ≡ none
      → (remove_peer t s peers ≡ unconfirmed s (delete (interface_name t) peers))
        × (remove_peer t s (delete (interface_name t) peers)
            ≡ confirmed s (delete (interface_name t) peers))
  unfolding remove_peer
  remove_peer_forgets t u s peers up active there refused =
      let gone : load (interface_name t) (delete (interface_name t) peers) ≡ none =
        load-delete (interface_name t) (interface_name t) peers ∙ rw equal_self in
      ground arith
