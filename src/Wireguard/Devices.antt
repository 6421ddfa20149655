-- ===== src/Wireguard/Devices.antt =====
-- internal/wireguard/wireguard.go: the device that `addPeer` configures, by the tunnel's record.
use mesh_manager.Common.{
  ◌≡◌, ◌≢◌, refl, ◌⊎◌, inl, inr, List, [], ◌∷◌, none, some, if◌then◌else◌, Bytes, arith,
  Option-cases, Bool-cases, drop, take, split, parse_int,
}
use mesh_manager.Net.{parse_ip}
use mesh_manager.Models.{Tunnel, is_server}
use mesh_manager.Wireguard.{Kernel, World, done, Device, Endpoint, stopped}
use mesh_manager.Wireguard.SetUp.{server_device, client_device, dial_host, two_parts, device_of}
use mesh_manager.Wireguard.Calls.{Run-cases}

-- A server's device has the server's key and port, the client's key at the end of the password, and
-- no endpoint.
abbrev ForServer : World → Tunnel → Device → Type 0
ForServer w t d =
    (w.parse_key t.wireguard_server_key ≡ some d.private_key)
    × (w.parse_key (drop 88 t.password) ≡ some d.peer_key)
    × (d.listen_port ≡ t.wireguard_port)
    × (d.endpoint ≡ none)

-- The host that is dialled: an address as it is written, or the first one for the name.
abbrev Dials : World → Bytes → Bytes → Type 0
Dials w host dialled =
    ((parse_ip w.parse_v6 host ≢ none) × (dialled ≡ host))
    ⊎ ((parse_ip w.parse_v6 host ≡ none)
        × ((more : List Bytes) × (w.resolve host ≡ some (dialled ∷ more))))

-- The endpoint is the host and the port of the tunnel's host name.
abbrev Dialled : World → Tunnel → Device → Type 0
Dialled w t d =
    (e : Endpoint) × (host : Bytes) × (port_part : Bytes) × (d.endpoint ≡ some e)
    × (split b':' t.hostname ≡ host ∷ port_part ∷ [])
    × (parse_int 2147483647 port_part ≡ some e.port)
    × Dials w host e.host

-- A client's device has the server's key at the start of the password and its own key after that, a
-- free port, and as its endpoint the host and the port of the tunnel's host name.
abbrev ForClient : World → Tunnel → Device → Type 0
ForClient w t d =
    (w.parse_key (drop 44 (take 88 t.password)) ≡ some d.private_key)
    × (w.parse_key (take 44 t.password) ≡ some d.peer_key)
    × (w.free_port ≡ some d.listen_port)
    × Dialled w t d

abbrev pub IsDevice : World → Tunnel → Device → Type 0
IsDevice w t d = if is_server t then ForServer w t d else ForClient w t d

server_device-ForServer :
    (k : Kernel) (w : World) (t : Tunnel) (s s' : k.State) (d : Device)
    → server_device k w t s ≡ done s' d
    → ForServer w t d
unfolding server_device
server_device-ForServer k w t s s' d h = ground arith

dial_host-Dials :
    (k : Kernel) (w : World) (host : Bytes) (s s' : k.State) (dialled : Bytes)
    → dial_host k w host s ≡ done s' dialled
    → Dials w host dialled
unfolding dial_host
dial_host-Dials k w host s s' dialled h = elim (Option-cases (parse_ip w.parse_v6 host)) [
  | inl e ↦ elim (Option-cases (w.resolve host)) [
    | inl f ↦ ground arith
    | inr ([], f) ↦ ground arith
    | inr (a ∷ more, f) ↦ inr (e, (more, ground arith))
  ]
  | inr (ip, e) ↦ inl (ground arith, ground arith)
]

two_parts-cases :
    (k : Kernel) (xs : List Bytes)
    → ((a : Bytes) × (b : Bytes) × (xs ≡ a ∷ b ∷ []))
      ⊎ ((s : k.State) → two_parts k xs s ≡ stopped s)
two_parts-cases k [] = inr λ s. refl
two_parts-cases k (x ∷ []) = inr λ s. refl
two_parts-cases k (x ∷ y ∷ []) = inl (x, y, refl)
two_parts-cases k (x ∷ y ∷ z ∷ xs) = inr λ s. refl

client_device-Dialled :
    (k : Kernel) (w : World) (t : Tunnel) (s s' : k.State) (d : Device)
    → client_device k w t s ≡ done s' d
    → Dialled w t d
unfolding client_device
client_device-Dialled k w t s s' d h = elim (two_parts-cases k (split b':' t.hostname)) [
  | inl (host, port_part, e) ↦ elim (Option-cases (parse_int 2147483647 port_part)) [
    | inl f ↦ ground arith
    | inr (port, f) ↦ elim (Run-cases (dial_host k w host s)) [
      | inl (s₁, dialled, g) ↦ (
        record { host = dialled; port = port },
        host,
        port_part,
        ground arith,
        e,
        f,
        dial_host-Dials k w host s s₁ dialled g,
      )
      | inr (inl (s₁, g)) ↦ ground arith
      | inr (inr (s₁, g)) ↦ ground arith
    ]
  ]
  | inr stops ↦ ground (arith, stops s)
]

client_device-ForClient :
    (k : Kernel) (w : World) (t : Tunnel) (s s' : k.State) (d : Device)
    → client_device k w t s ≡ done s' d
    → ForClient w t d
unfolding client_device
client_device-ForClient k w t s s' d h =
    (ground arith, ground arith, ground arith, client_device-Dialled k w t s s' d h)

pub device_of-IsDevice :
    (k : Kernel) (w : World) (t : Tunnel) (s s' : k.State) (d : Device)
    → device_of k w t s ≡ done s' d
    → IsDevice w t d
unfolding device_of
device_of-IsDevice k w t s s' d h = elim (Bool-cases (is_server t)) [
  | inl e ↦ rw e (server_device-ForServer k w t s s' d (rw e at h))
  | inr e ↦ rw e (client_device-ForClient k w t s s' d (rw e at h))
]
