-- ===== src/Api/Quality.antt =====
-- internal/server/api/controllers/v1/tunnels.go: `GETTunnelLQM`, which shows the quality of a
-- tunnel's link, and the handlers that count tunnels. A map of trackers is read in the order of
-- its list.
pub mod Found
mod Tests
use mesh_manager.Common.{
  ℕ, ◌+◌, ◌-◌, ◌≤◌, ◌≡◌, ◌∙◌, refl, inl, inr, Bool, true, false, not, ◌&&◌, ◌||◌, List, [], ◌∷◌,
  Option, none, some, Bytes, codes, ℤ, pos, negsuc, any, ltb, equal, if◌then◌else◌, to_lower,
  trim_suffix, trim_prefix, trim_space, parse_uint, arith, Bool-cases,
}
use mesh_manager.Models.{
  Tunnel, TunnelStore, First, found, not_found, failed, find_tunnel_by_id, count_wireguard_tunnels,
  count_wireguard_active_tunnels, count_wireguard_client_tunnels, count_wireguard_server_tunnels,
  count_wireguard_active_client_tunnels, count_wireguard_active_server_tunnels,
}
use mesh_manager.Lqm.{Tracker}

pub data CountReply : Type 0 where
  counted : ℕ → CountReply
  count_failed : CountReply

abbrev pub count_reply : Option ℕ → CountReply
count_reply none = count_failed
count_reply (some n) = counted n

module _ (s : TunnelStore) where
  pub get_wireguard_tunnels_count : s.Db → CountReply
  get_wireguard_tunnels_count d = count_reply (count_wireguard_tunnels s d)

  pub get_wireguard_tunnels_count_connected : s.Db → CountReply
  get_wireguard_tunnels_count_connected d = count_reply (count_wireguard_active_tunnels s d)

  pub get_wireguard_client_tunnels_count_connected : s.Db → CountReply
  get_wireguard_client_tunnels_count_connected d =
      count_reply (count_wireguard_active_client_tunnels s d)

  pub get_wireguard_server_tunnels_count_connected : s.Db → CountReply
  get_wireguard_server_tunnels_count_connected d =
      count_reply (count_wireguard_active_server_tunnels s d)

  pub get_wireguard_client_tunnels_count : s.Db → CountReply
  get_wireguard_client_tunnels_count d = count_reply (count_wireguard_client_tunnels s d)

  pub get_wireguard_server_tunnels_count : s.Db → CountReply
  get_wireguard_server_tunnels_count d = count_reply (count_wireguard_server_tunnels s d)

unfoldable pub canonicalize_hostname : Bytes → Bytes
canonicalize_hostname hostname =
    trim_prefix (trim_suffix (to_lower hostname) (codes ".local.mesh")) (codes "dtdlink.")

abbrev pub is_empty : Bytes → Bool
is_empty [] = true
is_empty (c ∷ cs) = false

abbrev pub first_non_empty : List Bytes → Bytes
first_non_empty [] = []
first_non_empty (v ∷ vs) =
    let later = first_non_empty vs in if is_empty (trim_space v) then later else trim_space v

-- `*int` of a quality: `q` between 0 and 100.
abbrev pub clamped : ℤ → ℕ
clamped (negsuc n) = 0
clamped (pos n) = if ltb 100 n then 100 else n

abbrev pub quality_of : Option ℤ → Option ℕ
quality_of none = none
quality_of (some q) = some (clamped q)

abbrev pub errors_of : Option ℤ → Option ℕ
errors_of none = none
errors_of (some q) = some (100 - clamped q)

module _ (F : Type 0) where
  -- What `LQMInfo.Trackers` holds: trackers, pointers to them, values that are written and read as
  -- JSON (none if that fails), or something else.
  pub data Held : Type 0 where
    values : List (Bytes × Tracker F) → Held
    pointers raw : List (Bytes × Option (Tracker F)) → Held
    other : Held

  abbrev pub present : List (Bytes × Option (Tracker F)) → List (Bytes × Tracker F)
  present [] = []
  present ((key, none) ∷ ts) = present ts
  present ((key, some t) ∷ ts) = (key, t) ∷ present ts

  abbrev pub normalize_lqm_trackers : Held → List (Bytes × Tracker F)
  normalize_lqm_trackers (values ts) = ts
  normalize_lqm_trackers (pointers ts) = present ts
  normalize_lqm_trackers (raw ts) = present ts
  normalize_lqm_trackers other = []

  -- The three tests of `findTrackerForTunnel`.
  unfoldable pub matches : Tunnel → Tracker F → Bool
  matches tunnel t =
      (not (is_empty (trim_space tunnel.ip))
        && (equal (trim_space t.ip) (trim_space tunnel.ip)
            || equal (trim_space t.remote.canonical_ip) (trim_space tunnel.ip)))
      || (not (is_empty (canonicalize_hostname tunnel.hostname))
          && equal (canonicalize_hostname t.remote.hostname)
              (canonicalize_hostname tunnel.hostname))

  unfoldable pub find_tracker_for_tunnel : Tunnel → List (Bytes × Tracker F) → Option (Tracker F)
  find_tracker_for_tunnel tunnel [] = none
  find_tracker_for_tunnel tunnel ((key, t) ∷ ts) =
      let later = find_tracker_for_tunnel tunnel ts in if matches tunnel t then some t else later

  -- `TunnelLQMResponse`, whose two qualities are one pointer.
  pub record TunnelLqmResponse : Type 0 where
    pub id : ℕ
    pub ip : Bytes
    pub hostname : Bytes
    pub quality : Option ℕ
    pub rtt : Option F
    pub errors : Option ℕ

  pub data LqmReply : Type 0 where
    lqm_disabled invalid_id tunnel_not_found tunnel_failed unavailable no_data : LqmReply
    answered : TunnelLqmResponse → LqmReply

  abbrev pub response_for : Tunnel → Tracker F → TunnelLqmResponse
  response_for tunnel t = record {
    id = tunnel.id;
    ip = first_non_empty (t.ip ∷ t.remote.canonical_ip ∷ []);
    hostname = t.remote.hostname;
    quality = quality_of t.pings.quality;
    rtt = t.link.rtt;
    errors = errors_of t.pings.quality;
  }

  abbrev pub reply_of : Tunnel → Option (Tracker F) → LqmReply
  reply_of tunnel none = no_data
  reply_of tunnel (some t) = answered (response_for tunnel t)

  unfoldable pub reply_from : Tunnel → List (Bytes × Tracker F) → LqmReply
  reply_from tunnel [] = unavailable
  reply_from tunnel (t ∷ ts) = reply_of tunnel (find_tracker_for_tunnel tunnel (t ∷ ts))

  abbrev pub reply_with : Option Held → Tunnel → LqmReply
  reply_with none tunnel = unavailable
  reply_with (some held) tunnel = reply_from tunnel (normalize_lqm_trackers held)

  abbrev pub reply_for : Option Held → First Tunnel → LqmReply
  reply_for info not_found = tunnel_not_found
  reply_for info failed = tunnel_failed
  reply_for info (found tunnel) = reply_with info tunnel

  abbrev pub reply_to : (s : TunnelStore) → s.Db → Option Held → Option ℕ → LqmReply
  reply_to s d info none = invalid_id
  reply_to s d info (some i) = reply_for info (find_tunnel_by_id s d i)

  -- `info` is what `getLQMInfo` reads from the file.
  unfoldable pub get_tunnel_lqm : Bool → Option Held → (s : TunnelStore) → Bytes → s.Db → LqmReply
  get_tunnel_lqm enabled info s id d =
      if not enabled then lqm_disabled else reply_to s d info (parse_uint 18446744073709551615 id)
