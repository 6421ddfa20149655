-- ===== src/Lqm/Refresh.antt =====
-- internal/services/lqm/lqm.go, `remoteRefresh` and `refreshTracker`. What a node answers is an
-- argument; the entries of its map of trackers come in the order in which the code ranges over
-- them.
use mesh_manager.Common.{
  ℕ, ◌+◌, ◌*◌, ◌/◌, Bool, true, false, not, ◌&&◌, ◌||◌, List, [], ◌∷◌, Option, none, some, Bytes,
  equal, ltb, ◌==◌, if◌then◌else◌, ℤ, pos, to_lower,
}
use mesh_manager.Net.{Ip}
use mesh_manager.Lqm.{Floats, DeviceType, dtd, wireguard, Tracker, Remote}
use mesh_manager.Lqm.Names.{NetLink, canonical_hostname, mesh_ip, derive_wireguard_peer_ip}
use mesh_manager.Lqm.Ping.{second}

-- A tracker is due if it was never refreshed or its time is past. `now` is in nanoseconds.
module _ (F : Type 0) where
  abbrev pub is_due : ℕ → Tracker F → Bool
  is_due now t = t.refresh == 0 || ltb (t.refresh * second) now

  -- The time of a refresh that fails: five minutes later.
  abbrev pub marked : ℕ → Tracker F → Tracker F
  marked now t = record t { refresh = (now + 300 * second) / second }

  -- The trackers after the loop, and those to refresh.
  unfoldable pub mark_due : ℕ → List (Bytes × Tracker F) → List (Bytes × Tracker F)
  mark_due now [] = []
  mark_due now ((mac, t) ∷ ts) = (mac, if is_due now t then marked now t else t) ∷ mark_due now ts

  unfoldable pub due_keys : ℕ → List (Bytes × Tracker F) → List Bytes
  due_keys now [] = []
  due_keys now ((mac, t) ∷ ts) = if is_due now t then mac ∷ due_keys now ts else due_keys now ts

-- A value of JSON, as far as the code looks.
pub data Json (F : Type 0) : Type 0 where
  number : F → Json F
  text : Bytes → Json F
  other : Json F

-- An entry of the node's trackers, if it is an object.
pub record RemoteEntry (F : Type 0) : Type 0 where
  pub hostname : Json F
  pub ping_success_time : Json F
  pub ping_quality : Json F
  pub quality : Json F

pub record Interface : Type 0 where
  pub mac : Bytes
  pub ip : Bytes

-- `SysinfoResponse`; its trackers are none unless they are an object.
pub record Sysinfo (F : Type 0) : Type 0 where
  pub node : Bytes
  pub lat : Json F
  pub lon : Json F
  pub model : Bytes
  pub firmware_version : Bytes
  pub interfaces : List Interface
  pub trackers : Option (List (Option (RemoteEntry F)))

pub data Answer (F : Type 0) : Type 0 where
  -- The request cannot be made, fails, or is answered with what cannot be decoded.
  no_request failed malformed : Answer F
  answered : Sysinfo F → Answer F

module _ (fl : Floats) where
  open fl use {
    Float, ratio, plus, minus, times, over, less, is_zero, to_int, parse_float, cos_degrees, root,
    atan2,
  }

  abbrev pub float_or_zero : Option Float → Float
  float_or_zero none = ratio 0 1
  float_or_zero (some x) = x

  abbrev pub coordinate : Json Float → Float
  coordinate (number x) = x
  coordinate (text s) = float_or_zero (parse_float s)
  coordinate other = ratio 0 1

  abbrev pub haversine : Float → Float → Float → Float → Float
  haversine lat1 lon1 lat2 lon2 =
      plus (minus (ratio 1 2) (over (cos_degrees (minus lat2 lat1)) (ratio 2 1))) (
        over
          (times (times (cos_degrees lat1) (cos_degrees lat2))
            (minus (ratio 1 1) (cos_degrees (minus lon2 lon1))))
          (ratio 2 1))

  abbrev pub calc_distance : Float → Float → Float → Float → Float
  calc_distance lat1 lon1 lat2 lon2 =
      let v = haversine lat1 lon1 lat2 lon2 in
      times (ratio 12742000 1) (atan2 (root v) (root (minus (ratio 1 1) v)))

  abbrev pub is_dtd : DeviceType → Bool
  is_dtd dtd = true
  is_dtd wireguard = false

  abbrev pub placed : Float → Tracker Float → Tracker Float
  placed distance t = record t {
    remote = record t.remote {
      distance = distance;
      local_area = is_dtd t.kind && less distance (ratio 50 1);
    };
  }

  -- The distance and whether the node is near, if both places are known.
  abbrev pub with_distance : Float → Float → Tracker Float → Tracker Float
  with_distance my_lat my_lon t =
      if not (is_zero my_lat)
        && not (is_zero my_lon)
        && (not (is_zero t.remote.lat) && not (is_zero t.remote.lon))
      then placed (calc_distance my_lat my_lon t.remote.lat t.remote.lon) t
      else t

  -- The IP of the interface with the tracker's hardware address.
  unfoldable pub interface_ip : Bytes → List Interface → Option Bytes
  interface_ip mac [] = none
  interface_ip mac (i ∷ is) =
      if equal (to_lower i.mac) (to_lower mac) && not (equal i.ip [])
      then some i.ip
      else interface_ip mac is

  abbrev pub ip_or : Bytes → Option Bytes → Bytes
  ip_or old none = old
  ip_or old (some ip) = ip

  abbrev pub ip_of : Option (List NetLink) → DeviceType → List Interface → Tracker Float → Bytes
  ip_of links wireguard interfaces t =
      if equal t.ip [] then derive_wireguard_peer_ip links t.device else t.ip
  ip_of links dtd interfaces t = ip_or t.ip (interface_ip t.mac interfaces)

  abbrev pub number_or : Float → Json Float → Float
  number_or old (number x) = x
  number_or old _ = old

  abbrev pub int_or : ℤ → Json Float → ℤ
  int_or old (number x) = to_int x
  int_or old _ = old

  abbrev pub text_or_empty : Json Float → Bytes
  text_or_empty (text s) = s
  text_or_empty _ = []

  -- What the entry of this node says.
  abbrev pub reversed : RemoteEntry Float → Remote Float → Remote Float
  reversed e r = record r {
    rev_ping_success_time = number_or r.rev_ping_success_time e.ping_success_time;
    rev_ping_quality = int_or r.rev_ping_quality e.ping_quality;
    rev_quality = int_or r.rev_quality e.quality;
  }

  -- The loop over the node's trackers ends at the first that names this node.
  unfoldable pub reverse_stats :
      Bytes → List (Option (RemoteEntry Float)) → Remote Float → Remote Float
  reverse_stats me [] r = r
  reverse_stats me (none ∷ es) r = reverse_stats me es r
  reverse_stats me (some e ∷ es) r =
      if equal me (canonical_hostname (text_or_empty e.hostname))
      then reversed e r
      else reverse_stats me es r

  abbrev pub reverse_of :
      Bytes → Option (List (Option (RemoteEntry Float))) → Remote Float → Remote Float
  reverse_of me none r = r
  reverse_of me (some es) r = reverse_stats me es r

  abbrev pub forgotten : Remote Float → Remote Float
  forgotten r = record r {
    rev_ping_success_time = ratio 0 1;
    rev_ping_quality = pos 0;
    rev_quality = pos 0;
  }

  module _ (links : Option (List NetLink)) (lookup : Bytes → Option (List Ip))
      (my_lat my_lon : Float) (server_name : Bytes) where
    abbrev pub identified : Sysinfo Float → ℕ → Tracker Float → Tracker Float
    identified info now t = record t {
      ip = ip_of links t.kind info.interfaces t;
      remote = record t.remote {
        rev_last_seen = now / second;
        lat = coordinate info.lat;
        lon = coordinate info.lon;
        hostname = canonical_hostname info.node;
        canonical_ip = mesh_ip (lookup (canonical_hostname info.node));
      };
    }

    -- The last part: the node's model, and its view of this node.
    abbrev pub described : Sysinfo Float → Tracker Float → Tracker Float
    described info t = record t {
      remote =
          reverse_of (canonical_hostname server_name) info.trackers
            (record t.remote { model = info.model; firmware_version = info.firmware_version });
    }

    -- The next refresh is in 12 minutes and the jitter, which is in nanoseconds.
    unfoldable pub refreshed : ℕ → ℕ → Sysinfo Float → Tracker Float → Tracker Float
    refreshed now jitter info t =
        record (described info (with_distance my_lat my_lon (identified info now t))) {
          refresh = (now + (720 * second + jitter)) / second;
        }

    -- `refreshTracker`.
    abbrev pub after_answer : ℕ → ℕ → Answer Float → Tracker Float → Tracker Float
    after_answer now jitter no_request t = t
    after_answer now jitter failed t = record t { remote = forgotten t.remote }
    after_answer now jitter malformed t = t
    after_answer now jitter (answered info) t = refreshed now jitter info t

    unfoldable pub refresh_tracker : ℕ → ℕ → Answer Float → Tracker Float → Tracker Float
    refresh_tracker now jitter answer t =
        if equal t.ipv6ll [] then t else after_answer now jitter answer t
