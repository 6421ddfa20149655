-- ===== src/Migrate.antt =====
-- cmd/migrate.go: what the migration report takes from the tunnels, the users and the node's
-- address. The prose of the report is left out.
pub mod SetUp
mod Tests
use mesh_manager.Common.{
  ℕ, ◌+◌, ◌%◌, ◌*◌, ◌≡◌, Bool, true, false, not, List, [], ◌∷◌, ◌++◌, Option, none, some, ltb, ◌==◌,
  if◌then◌else◌, Bytes, codes, equal, length, take, drop, split, itoa, has_prefix,
}
use mesh_manager.Net.{Ip, Ip4, v4, v6, parse_ip, ip4_string}
use mesh_manager.Models.{Tunnel, is_server}
use mesh_manager.Users.{User}

-- Whether a given password matched the stored hash.
pub data AdminCheck : Type 0 where
  admin_not_checked admin_matched admin_mismatch : AdminCheck

-- The user that is named `admin`, or else the first one.
abbrev pub admin_or : List User → Option User → Option User
admin_or [] other = other
admin_or (u ∷ us) other =
    let later = admin_or us other in if equal u.username (codes "admin") then some u else later

abbrev pub first_user : List User → Option User
first_user [] = none
first_user (u ∷ us) = some u

-- What `VerifyPassword` answers for a hash is a parameter; an error counts as no match.
abbrev pub check_user : (Bytes → Bool) → Option User → AdminCheck
check_user verified none = admin_mismatch
check_user verified (some u) = if verified u.password then admin_matched else admin_mismatch

pub verify_admin_password : (Bytes → Bool) → List User → AdminCheck
verify_admin_password verified us = check_user verified (admin_or us (first_user us))

-- The empty role is that of a tunnel that is not decoded.
pub data Role : Type 0 where
  no_role role_host role_client : Role

pub record DecodedTunnel : Type 0 where
  pub tunnel : Tunnel
  pub valid : Bool
  pub role : Role
  pub server_priv : Bytes
  pub server_pub : Bytes
  pub client_priv : Bytes
  pub client_pub : Bytes
  pub local_ip : Bytes
  pub remote_ip : Bytes
  pub endpoint_host : Bytes
  pub endpoint_port : Bytes

abbrev pub wg_key_len : ℕ
wg_key_len = 44

abbrev pub wg_password_len : ℕ
wg_password_len = wg_key_len * 3

-- `out[3]++`, and `out[2]++` when that is 0; bytes wrap around.
abbrev pub next_ip : Ip4 → Ip4
next_ip q =
    if (q.o3 + 1) % 256 == 0
    then record q { o2 = (q.o2 + 1) % 256; o3 = 0 }
    else record q { o3 = (q.o3 + 1) % 256 }

abbrev pub incremented : Bytes → Option Ip → Bytes
incremented s none = s
incremented s (some (v6 bs)) = s
incremented s (some (v4 q)) = ip4_string (next_ip q)

unfoldable pub increment_ip : (Bytes → Option Bytes) → Bytes → Bytes
increment_ip parse_v6 s = incremented s (parse_ip parse_v6 s)

abbrev pub two_parts : List Bytes → Option (Bytes × Bytes)
two_parts (host ∷ port ∷ []) = some (host, port)
two_parts _ = none

unfoldable pub split_host_port : Bytes → Option (Bytes × Bytes)
split_host_port hostname = two_parts (split b':' hostname)

abbrev pub with_endpoint : Option (Bytes × Bytes) → DecodedTunnel → DecodedTunnel
with_endpoint none d = d
with_endpoint (some (host, port)) d = record d { endpoint_host = host; endpoint_port = port }

abbrev pub not_decoded : Tunnel → DecodedTunnel
not_decoded t = record {
  tunnel = t;
  valid = false;
  role = no_role;
  server_priv = [];
  server_pub = [];
  client_priv = [];
  client_pub = [];
  local_ip = [];
  remote_ip = [];
  endpoint_host = [];
  endpoint_port = [];
}

-- The three keys of the password.
abbrev pub with_keys : Tunnel → DecodedTunnel
with_keys t = record (not_decoded t) {
  server_pub = take 44 t.password;
  client_priv = drop 44 (take 88 t.password);
  client_pub = drop 88 t.password;
}

abbrev pub as_host : (Bytes → Option Bytes) → Tunnel → DecodedTunnel
as_host parse_v6 t = record (with_keys t) {
  valid = true;
  role = role_host;
  server_priv = t.wireguard_server_key;
  local_ip = t.ip;
  remote_ip = increment_ip parse_v6 t.ip;
}

abbrev pub dialled : (Bytes → Option Bytes) → Tunnel → DecodedTunnel
dialled parse_v6 t = record (with_keys t) {
  valid = true;
  role = role_client;
  remote_ip = t.ip;
  local_ip = increment_ip parse_v6 t.ip;
}

abbrev pub as_client : (Bytes → Option Bytes) → Tunnel → DecodedTunnel
as_client parse_v6 t = with_endpoint (split_host_port t.hostname) (dialled parse_v6 t)

unfoldable pub decode_tunnel : (Bytes → Option Bytes) → Tunnel → DecodedTunnel
decode_tunnel parse_v6 t =
    if not t.is_wireguard
    then not_decoded t
    else if not (length t.password == wg_password_len)
    then not_decoded t
    else if is_server t
    then as_host parse_v6 t
    else as_client parse_v6 t

-- The three lists of `writeTunnelSection`.
pub record Sections : Type 0 where
  pub hosts : List DecodedTunnel
  pub clients : List DecodedTunnel
  pub legacy : List DecodedTunnel

abbrev pub is_host : Role → Bool
is_host role_host = true
is_host _ = false

-- A tunnel is put before those that follow it.
abbrev pub put : DecodedTunnel → Sections → Sections
put d s =
    if not d.tunnel.is_wireguard
    then record s { legacy = d ∷ s.legacy }
    else if is_host d.role
    then record s { hosts = d ∷ s.hosts }
    else record s { clients = d ∷ s.clients }

unfoldable pub sections : (Bytes → Option Bytes) → List Tunnel → Sections
sections parse_v6 [] = record { hosts = []; clients = []; legacy = [] }
sections parse_v6 (t ∷ ts) = put (decode_tunnel parse_v6 t) (sections parse_v6 ts)

abbrev pub bool_to_uci : Bool → Bytes
bool_to_uci true = codes "1"
bool_to_uci false = codes "0"

-- The options that are set for a tunnel of this node's, by `writeClientTunnel` and
-- `writeHostTunnel`.
abbrev pub client_options : DecodedTunnel → List (Bytes × Bytes)
client_options d =
    (codes "enabled", bool_to_uci d.tunnel.enabled)
    ∷ (codes "host", d.endpoint_host)
    ∷ (codes "passwd", d.tunnel.password)
    ∷ (codes "netip", d.remote_ip ++ (b':' ∷ d.endpoint_port))
    ∷ []

abbrev pub host_options : DecodedTunnel → List (Bytes × Bytes)
host_options d =
    (codes "enabled", bool_to_uci d.tunnel.enabled)
    ∷ (codes "name", d.tunnel.hostname)
    ∷ (codes "key", d.server_priv ++ d.tunnel.password)
    ∷ (codes "clientip", d.local_ip ++ (b':' ∷ itoa d.tunnel.wireguard_port))
    ∷ []

abbrev pub uci_mesh : Bytes
uci_mesh = codes "uci -c /etc/config.mesh"

abbrev pub set_line : Bytes → Bytes × Bytes → Bytes
set_line sec_type (key, value) =
    uci_mesh
    ++ (codes " set wireguard.@"
        ++ (sec_type ++ (codes "[-1]." ++ (key ++ (codes "='" ++ (value ++ codes "'\n"))))))

abbrev pub set_lines : Bytes → List (Bytes × Bytes) → Bytes
set_lines sec_type [] = []
set_lines sec_type (kv ∷ opts) = set_line sec_type kv ++ set_lines sec_type opts

unfoldable pub write_uci_add : Bytes → List (Bytes × Bytes) → Bytes
write_uci_add sec_type opts =
    codes "```sh\n"
    ++ (uci_mesh
        ++ (codes " add wireguard "
            ++ (sec_type
                ++ (10
                    ∷ (set_lines sec_type opts
                        ++ (uci_mesh ++ (codes " commit wireguard\n" ++ codes "```\n\n")))))))

-- The octets that `hsmmmesh.settings.mac2` is given: `strings.CutPrefix(nodeIP, "10.")`.
unfoldable pub mac2_of : Bytes → Option Bytes
mac2_of node_ip = if has_prefix node_ip (codes "10.") then some (drop 3 node_ip) else none
