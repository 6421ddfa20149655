-- ===== src/Api/Create.antt =====
-- internal/server/api/controllers/v1/tunnels.go, `POSTTunnel`, and the request of
-- internal/server/api/apimodels/tunnels.go.
use mesh_manager.Common.{
  ℕ, Bool, true, false, not, ◌&&◌, ◌||◌, List, [], ◌∷◌, ◌++◌, Option, none, some, ltb, leb, ◌==◌,
  if◌then◌else◌, Bytes, equal, any, length, take, drop, split, to_upper, Result, ok, err, panic,
}
use mesh_manager.Models.{Tunnel, TunnelStore, no_tunnel, interface_name, tunnel_id_exists}
use mesh_manager.Models.NextIp.{get_next_wireguard_ip}
use mesh_manager.Models.NextPort.{get_next_wireguard_port}
use mesh_manager.Config.{Config}
use mesh_manager.Api.{
  add_babel_tunnel, Outside, Site, Message, json_invalid, password_empty, vtun_disabled,
  hostname_too_short, hostname_too_long, hostname_not_alphanumeric, hostname_taken, ip_empty,
  ip_taken, server_address_invalid, net_invalid, key_invalid, error_getting_tunnel,
  error_checking_tunnel, error_getting_next_ip, error_getting_next_port,
  error_generating_server_key, error_generating_client_key, error_creating_tunnel,
  error_adding_babel, tunnel_created, next, Handler, ◌>>=◌, ◌>>◌, return, skip, answer, crash,
  refuse, require, check_address, check_server_address, add_enabled_peer, refresh_olsr,
  update_babel, reload_dns,
}

pub record CreateTunnel : Type 0 where
  pub wireguard : Bool
  pub hostname : Bytes
  pub password : Bytes
  pub ip : Bytes
  pub client : Bool

abbrev pub empty : Bytes → Bool
empty [] = true
empty (c ∷ cs) = false

-- `^[A-Za-z0-9\-]+$`
abbrev pub is_name_char : ℕ → Bool
is_name_char c =
    (leb b'A' c && leb c b'Z')
    || ((leb b'a' c && leb c b'z') || ((leb b'0' c && leb c b'9') || c == b'-'))

-- `IsValidHostname`: what is wrong with a hostname.
unfoldable pub hostname_fault : Bytes → Option Message
hostname_fault name =
    if ltb (length name) 3
    then some hostname_too_short
    else if ltb 63 (length name)
    then some hostname_too_long
    else if not (empty name) && not (any (λ c. not (is_name_char c)) name)
    then none
    else some hostname_not_alphanumeric

abbrev pub same_flag : Bool → Bool → Bool
same_flag true b = b
same_flag false b = not b

-- `Find` into one row: the first row that is found, or the row as it was.
abbrev pub first_row : Tunnel → List Tunnel → Tunnel
first_row t [] = t
first_row t (x ∷ xs) = x

module _ {S : Type 0} where
  abbrev pub check_hostname : Option Message → Handler S (Unit {0})
  check_hostname none = skip
  check_hostname (some message) = answer 400 message

  -- A result whose error is answered with `500 Internal Server Error`.
  abbrev pub from : {E A : Type 0} → Result E A → Message → Handler S A
  from (ok a) message = return a
  from (err e) message = answer 500 message
  from panic message = crash

  -- The client's port stands behind its network address and moves behind the server's name.
  abbrev pub move_port : CreateTunnel → List Bytes → Handler S CreateTunnel
  move_port json (address ∷ port ∷ []) =
      return (record json { hostname = json.hostname ++ (b':' ∷ port); ip = address })
  move_port json _ = answer 400 net_invalid

  unfoldable pub server_parts : CreateTunnel → Handler S CreateTunnel
  server_parts json =
      if json.wireguard
      then refuse (any (λ c. c == b':') json.hostname) server_address_invalid
        >> move_port json (split b':' json.ip)
      else return json

  -- The password is the server's public key, the client's private key and its public key.
  unfoldable pub check_keys : Outside → Bytes → Handler S (Unit {0})
  check_keys w password = do
    refuse (not (length password == 132)) key_invalid
    refuse (not (w.is_key (take 44 password))) key_invalid
    refuse (not (w.is_key (drop 44 (take 88 password)))) key_invalid
    refuse (not (w.is_key (drop 88 password))) key_invalid

module _ (s : TunnelStore) where
  open s use {Db}

  unfoldable pub id_exists : ℕ → Handler (Site Db) Bool
  id_exists i site = require 500 (tunnel_id_exists s site.db i) error_checking_tunnel site

module _ (s : TunnelStore) (w : Outside) (c : Config) where
  open s use {Db, query, create}

  unfoldable pub find_row : (Tunnel → Bool) → Handler (Site Db) Tunnel
  find_row p site = elim (query site.db p) [
    | none ↦ answer 500 error_getting_tunnel site
    | some found ↦ next site (first_row no_tunnel found)
  ]

  abbrev pub created : Option (Db × Tunnel) → Handler (Site Db) Tunnel
  created none = answer 500 error_creating_tunnel
  created (some (db, row)) = λ site. next (record site { db = db }) row

  -- `Create`, then `AddPeer`.
  unfoldable pub create_row : Tunnel → Handler (Site Db) Tunnel
  create_row t site = created (create site.db t) site

  unfoldable pub install : Tunnel → Handler (Site Db) Tunnel
  unfolding create_row add_enabled_peer
  install t = do row ← create_row t; add_enabled_peer w row; return row

  unfoldable pub next_ip : Handler (Site Db) Bytes
  next_ip site = from (get_next_wireguard_ip s w.parse_v6 site.db c) error_getting_next_ip site

  unfoldable pub next_port : Handler (Site Db) ℕ
  next_port site = from (get_next_wireguard_port s site.db c) error_getting_next_port site

  -- The row for a new server's tunnel.
  unfoldable pub server_row : CreateTunnel → Handler (Site Db) Tunnel
  unfolding hostname_fault find_row next_ip next_port
  server_row json = do
    check_hostname (hostname_fault json.hostname)
    twin ← find_row (λ t. equal t.hostname json.hostname && same_flag t.is_wireguard json.wireguard)
    refuse (not (twin.id == 0)) hostname_taken
    ip ← next_ip
    port ← next_port
    server ← require 500 w.server_key error_generating_server_key
    client ← require 500 w.client_key error_generating_client_key
    return (record no_tunnel {
      enabled = true;
      hostname = json.hostname;
      client = json.client;
      is_wireguard = json.wireguard;
      ip = ip;
      wireguard_port = port;
      password = server.public_text ++ (client.private_text ++ client.public_text);
      wireguard_server_key = server.private_text;
    })

  -- The row for a tunnel to a server elsewhere.
  unfoldable pub client_row : CreateTunnel → Handler (Site Db) Tunnel
  unfolding server_parts check_address check_server_address find_row check_keys
  client_row json = do
    refuse (empty json.ip) ip_empty
    moved ← server_parts json
    check_address w moved.ip
    check_server_address w moved.hostname
    twin ← find_row (λ t. equal t.ip moved.ip)
    refuse (not (twin.id == 0)) ip_taken
    if moved.wireguard then check_keys w moved.password else skip
    return (record no_tunnel {
      hostname = moved.hostname;
      password = moved.password;
      ip = moved.ip;
      client = moved.client;
      is_wireguard = moved.wireguard;
    })

  -- The row that a request asks for, with nothing changed yet.
  unfoldable pub requested_row : Option CreateTunnel → Handler (Site Db) Tunnel
  unfolding server_row client_row
  requested_row none = answer 400 json_invalid
  requested_row (some json) = do
    refuse ((not json.wireguard || json.client) && empty json.password) password_empty
    refuse (not json.wireguard) vtun_disabled
    if json.client
        then client_row json
        else server_row (record json { hostname = to_upper json.hostname })

  unfoldable pub announce : Tunnel → Handler (Site Db) (Unit {0})
  unfolding refresh_olsr update_babel reload_dns
  announce row = do
    refresh_olsr w c
    update_babel w c (add_babel_tunnel (interface_name row)) error_adding_babel
    reload_dns w

  unfoldable pub post_tunnel : Option CreateTunnel → Handler (Site Db) (Unit {0})
  unfolding requested_row install announce
  post_tunnel request = do
    t ← requested_row request
    row ← install t
    announce row
    answer 200 tunnel_created
