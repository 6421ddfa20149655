-- ===== src/Babel.antt =====
-- internal/services/babel/generator.go and socket.go: the configuration of the routing daemon, and
-- what is sent to its socket.
pub mod Metrics
mod Tests
use mesh_manager.Common.{
  ℕ, ◌≡◌, Bool, true, false, List, [], ◌∷◌, ◌++◌, Option, none, some, ◌==◌, if◌then◌else◌, Bytes,
  codes, length, Result, ok, err, panic,
}
use mesh_manager.Config.{Config}
use mesh_manager.Models.{Tunnel, TunnelStore, interface_name, list_wireguard_tunnels}

-- Lines of text, each with its newline.
abbrev pub lines : List Bytes → Bytes
lines [] = []
lines (l ∷ ls) = l ++ (10 ∷ lines ls)

-- `interface IFACE SETTING`.
abbrev setting : Bytes → Bytes → Bytes
setting iface text = codes "interface " ++ (iface ++ (32 ∷ text))

unfoldable pub generate_tunnel_line : Bytes → Bool → Bytes
generate_tunnel_line iface supernode = lines (
    setting iface (codes "type tunnel")
    ∷ setting iface (codes "rxcost 206")
    ∷ setting iface (codes "hello-interval 10")
    ∷ setting iface (codes "split-horizon true")
    ∷ setting iface (if supernode then codes "update-interval 300" else codes "update-interval 120")
    ∷ setting iface (codes "rtt-min 10")
    ∷ setting iface (codes "rtt-max 400")
    ∷ setting iface (codes "max-rtt-penalty 400")
    ∷ (codes "redistribute anyproto if " ++ (iface ++ codes " deny"))
    ∷ [])

-- The lines of the tunnels that are enabled.
unfoldable pub tunnel_lines : Bool → List Tunnel → Bytes
tunnel_lines supernode [] = []
tunnel_lines supernode (t ∷ ts) =
    let rest = tunnel_lines supernode ts in
    if t.enabled then generate_tunnel_line (interface_name t) supernode ++ rest else rest

abbrev head_lines : Config → Bytes
head_lines c = lines (
    (codes "router-id " ++ c.babel.router_id)
    ∷ codes "interface br-dtdlink type wired"
    ∷ codes "interface br-dtdlink rxcost 96"
    ∷ codes "interface br-dtdlink enable-timestamps false"
    ∷ codes "interface br-dtdlink split-horizon true"
    ∷ [])

abbrev filter_lines : Config → Bytes
filter_lines c =
    if c.supernode
    then lines (
        codes "smoothing-half-life 0"
        ∷ codes "protocol-buffer-size 32768"
        ∷ codes "import-table 21"
        ∷ codes "redistribute anyproto ip 10.0.0.0/8 allow"
        ∷ codes "out if br-dtdlink ip 10.0.0.0/8 eq 8 allow"
        ∷ codes "out ip 10.0.0.0/8 eq 8 deny"
        ∷ (codes "out if br-dtdlink ip " ++ (c.node_ip ++ codes " allow"))
        ∷ codes "out if br-dtdlink deny"
        ∷ codes "redistribute anyproto ip 172.30.0.0/16 eq 32 deny"
        ∷ [])
    else lines (
        codes "smoothing-half-life 10"
        ∷ codes "protocol-buffer-size 65536"
        ∷ codes "redistribute anyproto ip 10.0.0.0/8 ge 24 allow"
        ∷ codes "redistribute anyproto ip 44.0.0.0/8 ge 24 allow"
        ∷ codes "redistribute anyproto ip 172.31.0.0/16 eq 32 deny"
        ∷ [])

abbrev deny_lines : Bytes
deny_lines = lines (codes "redistribute anyproto if br0 deny" ∷ codes "redistribute deny" ∷ [])

abbrev install_lines : Bool → Bytes
install_lines supernode =
    if supernode
    then lines (codes "install ip 10.0.0.0/8 eq 8 deny" ∷ [])
    else lines (
        codes "install ip 10.0.0.0/8 eq 8 allow table 21"
        ∷ codes "install ip 44.0.0.0/8 le 23 allow table 21"
        ∷ [])

abbrev last_lines : Bytes
last_lines = lines (
    codes "install ip 0.0.0.0/0 eq 0 allow table 22"
    ∷ codes "install ip 10.0.0.0/8 ge 24 allow table 20"
    ∷ codes "install ip 44.0.0.0/8 ge 24 allow table 20"
    ∷ codes "install ip 0.0.0.0/0 ge 0 deny"
    ∷ [])

abbrev pub generated : Config → List Tunnel → Bytes
generated c ts =
    head_lines c
    ++ (tunnel_lines c.supernode ts
        ++ (filter_lines c ++ (deny_lines ++ (install_lines c.supernode ++ last_lines))))

abbrev pub generated_for : Config → Option (List Tunnel) → Result (Unit {0}) Bytes
generated_for c none = panic
generated_for c (some ts) = ok (generated c ts)

-- A query that fails panics.
unfoldable pub generate : Config → (s : TunnelStore) → s.Db → Result (Unit {0}) Bytes
generate c s d = generated_for c (list_wireguard_tunnels s d)

-- How many bytes a connection takes; none if it fails.
pub data SocketError : Type 0 where
  not_connected not_written not_all_written : SocketError

abbrev pub all_taken : Bytes → Option ℕ → Result SocketError (Unit {0})
all_taken text none = err not_written
all_taken text (some n) = if n == length text then ok tt else err not_all_written

abbrev pub send : Option (Bytes → Option ℕ) → Bytes → Result SocketError (Unit {0})
send none text = err not_connected
send (some write) text = all_taken text (write text)

pub add_tunnel : Bool → Option (Bytes → Option ℕ) → Bytes → Result SocketError (Unit {0})
add_tunnel supernode conn iface = send conn (generate_tunnel_line iface supernode)

pub remove_tunnel : Option (Bytes → Option ℕ) → Bytes → Result SocketError (Unit {0})
remove_tunnel conn iface = send conn (codes "flush interface " ++ (iface ++ (10 ∷ [])))
