-- ===== src/Lqm/Neighbors.antt =====
-- internal/services/lqm/lqm.go, `updateNeighbors`: the lines that the routing daemon answers with.
use mesh_manager.Common.{
  ℕ, zero, suc, Bool, true, false, List, [], ◌∷◌, Option, none, some, Bytes, codes, equal, ltb,
  ◌==◌, if◌then◌else◌, ℤ, pos, negsuc, load, store, parse_digits, Piece, lit, any_star, group,
  in_word, match_at, match_in,
}
use mesh_manager.Lqm.{
  Floats, DeviceType, dtd, wireguard, BabelConfig, Link, Traffic, Pings, Remote, Tracker,
  device_to_type,
}
use mesh_manager.Lqm.Names.{NetLink, reach_to_lq, ipv6ll_to_mac, derive_wireguard_peer_ip}

-- The value of `strconv.Atoi` with its error ignored: 0 for what is no number, and the nearest int
-- for a number that is out of range.
abbrev pub clamped : ℕ → Option ℕ → ℕ
clamped limit none = 0
clamped limit (some n) = if ltb limit n then limit else n

abbrev pub minus_of : ℕ → ℤ
minus_of zero = pos 0
minus_of (suc n) = negsuc n

unfoldable pub atoi : Bytes → ℤ
atoi [] = pos 0
atoi (c ∷ cs) =
    if c == b'-'
    then minus_of (clamped 9223372036854775808 (parse_digits cs))
    else if c == b'+'
    then pos (clamped 9223372036854775807 (parse_digits cs))
    else pos (clamped 9223372036854775807 (parse_digits (c ∷ cs)))

abbrev pub word : Piece
word = group in_word

abbrev pub neighbor_regex : List Piece
neighbor_regex =
    lit (codes "add")
    ∷ any_star
    ∷ lit (codes "address ")
    ∷ word
    ∷ lit (codes " if ")
    ∷ word
    ∷ lit (codes " reach ")
    ∷ word
    ∷ lit (codes " ")
    ∷ any_star
    ∷ lit (codes " rxcost ")
    ∷ word
    ∷ lit (codes " txcost ")
    ∷ word
    ∷ []

abbrev pub rtt_regex : List Piece
rtt_regex = lit (codes "rtt ") ∷ word ∷ []

-- The groups of a line that matches.
pub record Neighbor : Type 0 where
  pub ipv6ll : Bytes
  pub iface : Bytes
  pub reach : Bytes
  pub rx_cost : ℤ
  pub tx_cost : ℤ
  pub rtt : Option Bytes

abbrev pub first_group : Option (List Bytes) → Option Bytes
first_group (some (g ∷ gs)) = some g
first_group _ = none

abbrev pub neighbor_of : Bytes → Option (List Bytes) → Option Neighbor
neighbor_of line (some (ipv6ll ∷ iface ∷ reach ∷ rxcost ∷ txcost ∷ [])) = some record {
  ipv6ll = ipv6ll;
  iface = iface;
  reach = reach;
  rx_cost = atoi rxcost;
  tx_cost = atoi txcost;
  rtt = first_group (match_in rtt_regex line);
}
neighbor_of line _ = none

unfoldable pub parse_neighbor : Bytes → Option Neighbor
unfolding match_at match_in atoi
parse_neighbor line = neighbor_of line (match_at neighbor_regex line)

module _ (fl : Floats) where
  open fl use {Float, ratio, plus, times, least, parse_float}

  abbrev pub zero_float : Float
  zero_float = ratio 0 1

  abbrev pub new_link : Link Float
  new_link = record {
    lq = 0;
    avg_lq = zero_float;
    rx_cost = pos 0;
    tx_cost = pos 0;
    rtt = none;
    babel_config = none;
  }

  abbrev pub new_traffic : Traffic Float
  new_traffic = record {
    tx_packets = 0;
    tx_fail = 0;
    tx_retries = 0;
    last_tx_packets = none;
    last_tx_fail = none;
    last_tx_retries = none;
    avg_tx = zero_float;
    avg_tx_fail = zero_float;
    avg_tx_retries = zero_float;
    tx_quality = zero_float;
  }

  abbrev pub new_pings : Pings Float
  new_pings = record { ping_quality = 0; ping_success_time = zero_float; quality = none }

  abbrev pub new_remote : Remote Float
  new_remote = record {
    hostname = [];
    canonical_ip = [];
    lat = zero_float;
    lon = zero_float;
    distance = zero_float;
    local_area = false;
    model = [];
    firmware_version = [];
    rev_last_seen = 0;
    rev_ping_success_time = zero_float;
    rev_ping_quality = pos 0;
    rev_quality = pos 0;
  }

  -- A tracker that is seen for the first time, with the address of its end of a tunnel.
  abbrev pub new_tracker : ℕ → DeviceType → Bytes → Neighbor → Bytes → Tracker Float
  new_tracker now kind mac n ip = record {
    first_seen = now;
    last_seen = now;
    last_up = now;
    kind = kind;
    device = n.iface;
    mac = mac;
    ipv6ll = n.ipv6ll;
    ip = ip;
    refresh = 0;
    link = new_link;
    traffic = new_traffic;
    pings = new_pings;
    remote = new_remote;
    node_route_count = 0;
    babel_route_count = 0;
    babel_metric = 0;
    routable = false;
  }

  -- The defaults, unless they are there.
  abbrev pub babel_config_of : Bool → DeviceType → Option BabelConfig → Option BabelConfig
  babel_config_of supernode kind (some c) = some c
  babel_config_of supernode dtd none =
      some record {
        hello_interval = 6;
        update_interval = if supernode then 300 else 120;
        rx_cost = 96;
      }
  babel_config_of supernode wireguard none = some record {
    hello_interval = 10;
    update_interval = if supernode then 300 else 120;
    rx_cost = 206;
  }

  abbrev pub parsed_rtt : Option Float → Option Float → Option Float
  parsed_rtt old none = old
  parsed_rtt old (some rtt) = some rtt

  -- An RTT that cannot be parsed leaves the old one.
  abbrev pub rtt_of : Option Bytes → Option Float → Option Float
  rtt_of none old = none
  rtt_of (some text) old = parsed_rtt old (parse_float text)

  -- `0.9*AvgLQ + 0.1*LQ`, at most 100.
  abbrev pub next_avg_lq : Float → ℕ → Float
  next_avg_lq avg lq =
      least (ratio 100 1) (plus (times (ratio 9 10) avg) (times (ratio 1 10) (ratio lq 1)))

  -- `devType` is that of the line, also where the tracker has another one.
  unfoldable pub see : Bool → ℕ → DeviceType → Neighbor → Tracker Float → Tracker Float
  see supernode now kind n t = record t {
    last_seen = now;
    link = record {
      lq = reach_to_lq n.reach;
      rx_cost = n.rx_cost;
      tx_cost = n.tx_cost;
      avg_lq = next_avg_lq t.link.avg_lq (reach_to_lq n.reach);
      babel_config = babel_config_of supernode kind t.link.babel_config;
      rtt = rtt_of n.rtt t.link.rtt;
    };
  }

  abbrev pub Trackers : Type 0
  Trackers = List (Bytes × Tracker Float)

  abbrev pub is_wireguard : DeviceType → Bool
  is_wireguard wireguard = true
  is_wireguard dtd = false

  module _ (parse_v6 : Bytes → Option Bytes) (links : Option (List NetLink)) (supernode : Bool)
      (now : ℕ) where
    -- The tracker of a neighbor before it is seen: a new one, or the old one with its address of a
    -- tunnel derived again.
    abbrev pub tracker_for : DeviceType → Bytes → Neighbor → Option (Tracker Float) → Tracker Float
    tracker_for kind mac n none =
        new_tracker now kind mac n
          (if is_wireguard kind then derive_wireguard_peer_ip links n.iface else [])
    tracker_for kind mac n (some t) =
        if is_wireguard t.kind then record t { ip = derive_wireguard_peer_ip links n.iface } else t

    abbrev pub update_kind : Neighbor → Bytes → Option DeviceType → Trackers → Trackers
    update_kind n mac none ts = ts
    update_kind n mac (some kind) ts =
        store mac (see supernode now kind n (tracker_for kind mac n (load mac ts))) ts

    unfoldable pub update_neighbor : Neighbor → Trackers → Trackers
    update_neighbor n ts =
        update_kind n (ipv6ll_to_mac parse_v6 n.ipv6ll) (device_to_type n.iface) ts

    abbrev pub update_line : Option Neighbor → Trackers → Trackers
    update_line none ts = ts
    update_line (some n) ts = update_neighbor n ts

    -- The lines after the banner, up to "ok".
    unfoldable pub update_lines : List Bytes → Trackers → Trackers
    update_lines [] ts = ts
    update_lines (line ∷ lines) ts =
        let more = update_lines lines (update_line (parse_neighbor line) ts) in
        if equal line (codes "ok") then ts else more

    -- `updateNeighbors`; none stands for a socket that cannot be opened or written.
    abbrev pub update_neighbors : Option (List Bytes) → Trackers → Trackers
    update_neighbors none ts = ts
    update_neighbors (some lines) ts = update_lines lines ts
