-- ===== src/Migrate/Tests.antt =====
-- cmd/migrate.go on a few tunnels.
use mesh_manager.Common.{
  ℕ, suc, ◌≡◌, refl, Bool, true, [], ◌∷◌, ◌++◌, some, none, Bytes, codes, equal, split, itoa,
  parse_int, has_prefix, arith, length,
}
use mesh_manager.Net.{Ip4, parse_ip, ip4_string}
use mesh_manager.Models.{Tunnel, no_tunnel}
use mesh_manager.Wireguard.{Kernel, World, Device, Run, done, addrs_are, client_ip}
use mesh_manager.Wireguard.SetUp.{device_of, server_device, client_device, dial_host}
use mesh_manager.Migrate.{
  DecodedTunnel, decode_tunnel, increment_ip, split_host_port, sections, write_uci_add, mac2_of,
}
use mesh_manager.Migrate.SetUp.{Describes, decode_tunnel-Describes}

abbrev no_v6 : Bytes → Bool
no_v6 s = true

abbrev counting : Kernel
counting = record {
  State = ℕ;
  perform = λ s c. some (suc s);
  link_by_name = λ s iface. some true;
  addr_list = λ s iface n. addrs_are [];
}

abbrev world : World
world = record {
  random = λ n. true;
  parse_v6 = λ s. none;
  parse_key = λ s. some s;
  free_port = some 40000;
  resolve = λ s. none;
}

abbrev key : Bytes
key = codes "AAAAAAAAAAAAAAAAAAAAAAAAAAAAAAAAAAAAAAAAAAA="

abbrev client : Tunnel
client = record no_tunnel {
  id = 7;
  ip = codes "172.31.150.16";
  hostname = codes "44.0.0.1:5527";
  password = key ++ (key ++ key);
  enabled = true;
  client = true;
  is_wireguard = true;
}

abbrev decoded : DecodedTunnel
decoded = decode_tunnel world.parse_v6 client

decoded_ends : (decoded.local_ip ≡ codes "172.31.150.17") × (decoded.endpoint_port ≡ codes "5527")
unfolding decode_tunnel increment_ip split_host_port split parse_ip equal ip4_string itoa
decoded_ends = (refl, refl)

-- A Wireguard server's row whose password has another length is listed among the clients.
not_decoded_server :
    length
      (sections world.parse_v6
        (record client { wireguard_server_key = key; password = [] } ∷ [])).clients
    ≡ 1
unfolding sections decode_tunnel equal
not_decoded_server = refl

written :
    write_uci_add (codes "server") ((codes "enabled", codes "1") ∷ [])
    ≡ codes
        "```sh\nuci -c /etc/config.mesh add wireguard server\nuci -c /etc/config.mesh set wireguard.@server[-1].enabled='1'\nuci -c /etc/config.mesh commit wireguard\n```\n\n"
unfolding write_uci_add
written = refl

kept_octets : mac2_of (codes "10.54.27.2") ≡ some (codes "54.27.2")
unfolding mac2_of has_prefix
kept_octets = refl

abbrev address : Ip4
address = record { o0 = 172; o1 = 31; o2 = 150; o3 = 16 }

abbrev device_in : Run ℕ Device → Device
device_in (done s d) = d
device_in _ = record { private_key = []; listen_port = 0; peer_key = []; endpoint = none }

abbrev device : Device
device = device_in (device_of counting world client 0)

decode_tunnel-Describes_example : Describes world decoded device (client_ip address)
unfolding parse_ip device_of server_device client_device dial_host equal split parse_int
decode_tunnel-Describes_example =
    decode_tunnel-Describes counting world client address 0 0 device refl refl refl
      (record { lt0 = omega arith; lt1 = omega arith; lt2 = omega arith; lt3 = omega arith })
      (omega arith) refl
