-- ===== src/Migrate/SetUp.antt =====
-- cmd/migrate.go, `decodeTunnel`: the tunnel that the report describes is the one that `addPeer` of
-- internal/wireguard/wireguard.go sets up.
use mesh_manager.Common.{
  ◌≡◌, ◌<◌, Bool, true, false, some, none, Bytes, length, take, drop, arith, if◌then◌else◌,
  Bool-cases, refl, sym, subst, Option, inl, inr,
}
use mesh_manager.Net.{Ip4, IsIp4, v4, parse_ip}
use mesh_manager.Net.RoundTrip.{parse_ip-ip4_string}
use mesh_manager.Models.{Tunnel, is_server}
use mesh_manager.Wireguard.{Kernel, World, Device, done, client_ip}
use mesh_manager.Wireguard.Address.{client_ip-IsIp4}
use mesh_manager.Wireguard.Calls.{address_of}
use mesh_manager.Wireguard.SetUp.{device_of, server_device, client_device}
use mesh_manager.Migrate.{
  DecodedTunnel, is_host, decode_tunnel, increment_ip, next_ip, split_host_port, as_host, as_client,
  dialled, with_endpoint,
}

-- The keys that the report gives for this node's device, and for its peer.
abbrev pub own_key : DecodedTunnel → Bytes
own_key d = if is_host d.role then d.server_priv else d.client_priv

abbrev pub peer_key_of : DecodedTunnel → Bytes
peer_key_of d = if is_host d.role then d.client_pub else d.server_pub

next_ip-client_ip : (q : Ip4) → IsIp4 q → q.o3 < 255 → next_ip q ≡ client_ip q
unfolding client_ip
next_ip-client_ip q v h = ground arith

module _ (k : Kernel) (w : World) where
  open k use {State}

  server_keys :
      (t : Tunnel) (s s' : State) (d : Device)
      → server_device k w t s ≡ done s' d
      → (w.parse_key t.wireguard_server_key ≡ some d.private_key)
        × (w.parse_key (drop 88 t.password) ≡ some d.peer_key)
  unfolding server_device
  server_keys t s s' d h = ground arith

  client_keys :
      (t : Tunnel) (s s' : State) (d : Device)
      → client_device k w t s ≡ done s' d
      → (w.parse_key (drop 44 (take 88 t.password)) ≡ some d.private_key)
        × (w.parse_key (take 44 t.password) ≡ some d.peer_key)
  unfolding client_device
  client_keys t s s' d h = ground arith

module _ (parse_v6 : Bytes → Option Bytes) (t : Tunnel) where
  decoded_host :
      t.is_wireguard ≡ true
      → length t.password ≡ 132
      → is_server t ≡ true
      → decode_tunnel parse_v6 t ≡ as_host parse_v6 t
  unfolding decode_tunnel
  decoded_host wg len e = rw (wg, len, e) refl

  decoded_client :
      t.is_wireguard ≡ true
      → length t.password ≡ 132
      → is_server t ≡ false
      → decode_tunnel parse_v6 t ≡ as_client parse_v6 t
  unfolding decode_tunnel
  decoded_client wg len e = rw (wg, len, e) refl

-- The end of the other host does not change the rest.
with_endpoint_keeps :
    (o : Option (Bytes × Bytes)) (d : DecodedTunnel)
    → (own_key (with_endpoint o d) ≡ own_key d)
      × (peer_key_of (with_endpoint o d) ≡ peer_key_of d)
      × ((with_endpoint o d).local_ip ≡ d.local_ip)
      × ((with_endpoint o d).valid ≡ d.valid)
with_endpoint_keeps none d = (refl, refl, refl, refl)
with_endpoint_keeps (some (host, port)) d = (refl, refl, refl, refl)

-- What the report says of a tunnel is what the device of that tunnel is.
pub record Describes (w : World) (d : DecodedTunnel) (device : Device) (address : Ip4)
    : Type 0 where
  pub decoded : d.valid ≡ true
  pub own : w.parse_key (own_key d) ≡ some device.private_key
  pub peer : w.parse_key (peer_key_of d) ≡ some device.peer_key
  pub at_address : parse_ip w.parse_v6 d.local_ip ≡ some (v4 address)

module _ (k : Kernel) (w : World) (t : Tunnel) (q : Ip4) where
  open k use {State}

  host_described :
      (s s' : State) (device : Device)
      → parse_ip w.parse_v6 t.ip ≡ some (v4 q)
      → server_device k w t s ≡ done s' device
      → Describes w (as_host w.parse_v6 t) device q
  host_described s s' device read h =
      let keys = server_keys k w t s s' device h in
      record { decoded = refl; own = keys.0; peer = keys.1; at_address = read }

  client_described :
      (s s' : State) (device : Device)
      → parse_ip w.parse_v6 t.ip ≡ some (v4 q)
      → IsIp4 q
      → q.o3 < 255
      → client_device k w t s ≡ done s' device
      → Describes w (as_client w.parse_v6 t) device (client_ip q)
  unfolding increment_ip
  client_described s s' device read v below h =
      let keys = client_keys k w t s s' device h in
      let (own, peer, local, valid_) =
        with_endpoint_keeps (split_host_port t.hostname) (dialled w.parse_v6 t) in
      record {
        decoded = valid_;
        own = subst (λ x. w.parse_key x ≡ some device.private_key) (sym own) keys.0;
        peer = subst (λ x. w.parse_key x ≡ some device.peer_key) (sym peer) keys.1;
        at_address =
            subst (λ x. parse_ip w.parse_v6 x ≡ some (v4 (client_ip q))) (sym local)
              (rw (read, next_ip-client_ip q v below)
                (parse_ip-ip4_string w.parse_v6 (client_ip q) (client_ip-IsIp4 q v).0));
      }

  -- If `addPeer` accepts the keys of a Wireguard tunnel whose password is as long as three keys,
  -- then the report describes the device: its own key and its peer's key are read from the texts
  -- that the report gives, and so is its address, when the tunnel's own is IPv4 and does not end
  -- in 255.
  pub decode_tunnel-Describes :
      (s s' : State) (device : Device)
      → t.is_wireguard ≡ true
      → length t.password ≡ 132
      → parse_ip w.parse_v6 t.ip ≡ some (v4 q)
      → IsIp4 q
      → q.o3 < 255
      → device_of k w t s ≡ done s' device
      → Describes w (decode_tunnel w.parse_v6 t) device (address_of (is_server t) q)
  unfolding device_of
  decode_tunnel-Describes s s' device wg len read v below h =
      let of_kind : (b : Bool)
          → is_server t ≡ b
          → (if b then server_device k w t else client_device k w t) s ≡ done s' device =
        λ b e.
          subst (λ b. (if b then server_device k w t else client_device k w t) s ≡ done s' device) e
            h in
      elim (Bool-cases (is_server t)) [
        | inl e ↦
            rw (decoded_host w.parse_v6 t wg len e, e)
              (host_described s s' device read (of_kind true e))
        | inr e ↦
            rw (decoded_client w.parse_v6 t wg len e, e)
              (client_described s s' device read v below (of_kind false e))
      ]
