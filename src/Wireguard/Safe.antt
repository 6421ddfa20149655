-- ===== src/Wireguard/Safe.antt =====
-- internal/wireguard/wireguard.go: `addPeer` does not panic on a tunnel with an IPv4 address and
-- three keys.
use mesh_manager.Wireguard.{Run, done, stopped, crashed}

abbrev pub Survives : {S A : Type 0} → Run S A → Type 0
Survives (done s a) = Unit
Survives (stopped s) = Unit
Survives (crashed s) = ⊥
