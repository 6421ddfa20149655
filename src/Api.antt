-- ===== src/Api.antt =====
-- internal/server/api/controllers/v1/tunnels.go: what the handlers of tunnels share. A handler runs
-- on a site, which is the database and the calls made on the managers and services so far, and ends
-- with a reply, or panics (which the recovery of the web framework answers).
pub mod Create
pub mod Edit
pub mod Remove
pub mod Listing
pub mod Checks
pub mod Requests
pub mod Quality
pub mod Refusals
pub mod Results
pub mod Accepted
pub mod Passed
pub mod Keeps
pub mod Clients
pub mod Edits
mod Tests
use mesh_manager.Common.{
  ℕ, zero, suc, ◌+◌, ◌≡◌, Bool, true, false, not, ◌&&◌, ◌||◌, List, [], ◌∷◌, ◌++◌, Option, none,
  some, ltb, leb, ◌==◌, if◌then◌else◌, Bytes, split, parse_uint,
}
use mesh_manager.Net.{Ip4, Ip, v4, v6, parse_ip}
use mesh_manager.Models.{Tunnel, interface_name}
use mesh_manager.Config.{Config}

pub data Service : Type 0 where
  olsr_service babel_service dnsmasq_service : Service

-- A call on the Wireguard manager, the generator of the OLSR configuration, or a service.
pub data Effect : Type 0 where
  add_peer remove_peer : Tunnel → Effect
  generate_olsr : Effect
  reload : Service → Effect
  add_babel_tunnel remove_babel_tunnel : Bytes → Effect

pub record KeyPair : Type 0 where
  pub private_text : Bytes
  pub public_text : Bytes

-- What the handlers call: whether a call gives no error after those made before it, which services
-- are registered, the parsers, and `wgtypes.GeneratePrivateKey` (its first and second call).
pub record Outside : Type 0 where
  pub accepts : List Effect → Effect → Bool
  pub has_service : Service → Bool
  pub parse_v6 : Bytes → Option Bytes
  pub valid_uri : Bytes → Bool
  pub is_key : Bytes → Bool
  pub server_key : Option KeyPair
  pub client_key : Option KeyPair

pub record Site (Db : Type 0) : Type 0 where
  pub db : Db
  pub effects : List Effect

-- The messages of the replies.
pub data Message : Type 0 where
  json_invalid password_empty vtun_disabled hostname_too_short hostname_too_long
        hostname_not_alphanumeric :
      Message
  hostname_taken ip_empty ip_invalid ip_out_of_range ip_taken server_address_invalid
        server_port_invalid :
      Message
  net_invalid key_invalid tunnel_id_invalid tunnel_does_not_exist : Message
  error_getting_tunnel error_getting_next_ip error_getting_next_port error_generating_server_key :
      Message
  error_generating_client_key error_creating_tunnel error_adding_peer error_removing_peer : Message
  error_checking_tunnel error_updating_tunnel error_saving_tunnel error_deleting_tunnel
        type_change_not_allowed :
      Message
  error_generating_olsrd error_reloading_olsrd error_adding_babel error_removing_babel : Message
  error_reloading_dns try_again_later tunnel_created tunnel_updated tunnel_deleted : Message

pub record Reply : Type 0 where
  pub status : ℕ
  pub message : Message

pub data Handled (S A : Type 0) : Type 0 where
  next : S → A → Handled S A
  replied : S → Reply → Handled S A
  panicked : S → Handled S A

abbrev pub Handler : Type 0 → Type 0 → Type 0
Handler S A = S → Handled S A

module _ {S : Type 0} where
  infixl 5 ◌>>=◌ ◌>>◌
  abbrev pub ◌>>=◌ : {A B : Type 0} → Handler S A → (A → Handler S B) → Handler S B
  ◌>>=◌ m f s = elim (m s) [
    | next s' a ↦ f a s'
    | replied s' r ↦ replied s' r
    | panicked s' ↦ panicked s'
  ]

  abbrev pub ◌>>◌ : {B : Type 0} → Handler S (Unit {0}) → Handler S B → Handler S B
  m >> n = m >>= λ _. n

  abbrev pub return : {A : Type 0} → A → Handler S A
  return a s = next s a

  abbrev pub skip : Handler S (Unit {0})
  skip = return tt

  -- `c.JSON(status, ...)` followed by `return`.
  abbrev pub answer : {A : Type 0} → ℕ → Message → Handler S A
  answer status message s = replied s (record { status = status; message = message })

  abbrev pub crash : {A : Type 0} → Handler S A
  crash s = panicked s

  -- A guard: a request that fails it is answered with `400 Bad Request`.
  abbrev pub refuse : Bool → Message → Handler S (Unit {0})
  refuse fails message = if fails then answer 400 message else skip

  -- A value that has to be there, on pain of a status.
  abbrev pub require : {A : Type 0} → ℕ → Option A → Message → Handler S A
  require status none message = answer status message
  require status (some a) message = return a

-- The checks of an address in a request: `net.ParseIP`, then the range 172.16.0.0/12.
abbrev pub in_range : Ip → Bool
in_range (v4 q) = q.o0 == 172 && (leb 16 q.o1 && ltb q.o1 32)
in_range (v6 bs) = false

module _ {S : Type 0} (w : Outside) where
  unfoldable pub check_address : Bytes → Handler S (Unit {0})
  check_address text = do
    ip ← require 400 (parse_ip w.parse_v6 text) ip_invalid
    refuse (not (in_range ip)) ip_out_of_range

  abbrev pub check_host : Bytes → Handler S (Unit {0})
  check_host host = elim (parse_ip w.parse_v6 host) [
    | some ip ↦ skip
    | none ↦ refuse (not (w.valid_uri host)) server_address_invalid
  ]

  abbrev pub check_port : Bytes → Handler S (Unit {0})
  check_port text = do
    port ← require 400 (parse_uint 65535 text) server_port_invalid
    refuse (ltb port 1 || ltb 65535 port) server_port_invalid

  -- The parts of a server's address between colons: an IP address or a name, and a port at most.
  abbrev pub check_parts : List Bytes → Handler S (Unit {0})
  check_parts [] = crash
  check_parts (host ∷ []) = check_host host
  check_parts (host ∷ port ∷ []) = check_host host >> check_port port
  check_parts (host ∷ port ∷ more ∷ rest) = answer 400 server_address_invalid

  unfoldable pub check_server_address : Bytes → Handler S (Unit {0})
  check_server_address hostname = check_parts (split b':' hostname)

module _ {Db : Type 0} (w : Outside) where
  -- A call on a manager or a service.
  unfoldable pub perform : Effect → Message → Handler (Site Db) (Unit {0})
  perform e message s =
      if w.accepts s.effects e
      then next (record s { effects = s.effects ++ e ∷ [] }) tt
      else replied (record s { effects = s.effects ++ e ∷ [] })
          (record { status = 500; message = message })

  -- internal/wireguard/wireguard.go, `AddPeer`: a tunnel that is not enabled is passed over.
  unfoldable pub add_enabled_peer : Tunnel → Handler (Site Db) (Unit {0})
  unfolding perform
  add_enabled_peer t = if t.enabled then perform (add_peer t) error_adding_peer else skip

  abbrev pub with_service : Service → Handler (Site Db) (Unit {0})
  with_service service = if w.has_service service then skip else answer 500 try_again_later

  unfoldable pub refresh_olsr : Config → Handler (Site Db) (Unit {0})
  unfolding perform
  refresh_olsr c =
      if c.olsr
      then (do
        perform generate_olsr error_generating_olsrd
        with_service olsr_service
        perform (reload olsr_service) error_reloading_olsrd)
      else skip

  unfoldable pub update_babel : Config → Effect → Message → Handler (Site Db) (Unit {0})
  unfolding perform
  update_babel c e message =
      if c.babel.enabled then with_service babel_service >> perform e message else skip

  unfoldable pub reload_dns : Handler (Site Db) (Unit {0})
  unfolding perform
  reload_dns = with_service dnsmasq_service >> perform (reload dnsmasq_service) error_reloading_dns
