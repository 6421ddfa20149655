-- ===== src/Lqm.antt =====
-- internal/services/lqm/lqm.go: the trackers of the link quality manager. A tracker's fields are
-- put together by the function that sets them; UserBlocks, which nothing sets, is left out. The
-- 64-bit floating-point numbers are the parameter `Floats`, and times are seconds since 1970.
pub mod Names
pub mod Neighbors
pub mod Routes
pub mod Averages
pub mod Ping
pub mod Refresh
pub mod Tick
mod Tests
use mesh_manager.Common.{
  ℕ, Bool, true, false, List, [], Option, none, some, Bytes, codes, equal, has_prefix, ℤ, pos,
  if◌then◌else◌,
}

-- What the code does with floating-point numbers. `ratio n d` is the number nearest to n / d.
pub record Floats : Type 1 where
  pub Float : Type 0
  pub ratio : ℕ → ℕ → Float
  pub plus : Float → Float → Float
  pub minus : Float → Float → Float
  pub times : Float → Float → Float
  pub over : Float → Float → Float
  pub less : Float → Float → Bool
  pub least : Float → Float → Float
  pub greatest : Float → Float → Float
  pub is_zero : Float → Bool
  -- `int(x)` and `int(math.Round(x))`.
  pub to_int : Float → ℤ
  pub to_nearest : Float → ℤ
  -- `strconv.ParseFloat`.
  pub parse_float : Bytes → Option Float
  -- `math.Cos` of an angle in degrees, `math.Sqrt`, `math.Atan2`.
  pub cos_degrees : Float → Float
  pub root : Float → Float
  pub atan2 : Float → Float → Float

pub data DeviceType : Type 0 where
  dtd wireguard : DeviceType

pub record BabelConfig : Type 0 where
  pub hello_interval : ℕ
  pub update_interval : ℕ
  pub rx_cost : ℕ

module _ (F : Type 0) where
  -- What a neighbor's line says of the link.
  pub record Link : Type 0 where
    pub lq : ℕ
    pub avg_lq : F
    pub rx_cost : ℤ
    pub tx_cost : ℤ
    pub rtt : Option F
    pub babel_config : Option BabelConfig

  pub record Traffic : Type 0 where
    pub tx_packets : ℕ
    pub tx_fail : ℕ
    pub tx_retries : ℕ
    pub last_tx_packets : Option ℕ
    pub last_tx_fail : Option ℕ
    pub last_tx_retries : Option ℕ
    pub avg_tx : F
    pub avg_tx_fail : F
    pub avg_tx_retries : F
    pub tx_quality : F

  pub record Pings : Type 0 where
    pub ping_quality : ℕ
    pub ping_success_time : F
    pub quality : Option ℤ

  -- What the node says of itself, and of this node.
  pub record Remote : Type 0 where
    pub hostname : Bytes
    pub canonical_ip : Bytes
    pub lat : F
    pub lon : F
    pub distance : F
    pub local_area : Bool
    pub model : Bytes
    pub firmware_version : Bytes
    pub rev_last_seen : ℕ
    pub rev_ping_success_time : F
    pub rev_ping_quality : ℤ
    pub rev_quality : ℤ

  pub record Tracker : Type 0 where
    pub first_seen : ℕ
    pub last_seen : ℕ
    pub last_up : ℕ
    pub kind : DeviceType
    pub device : Bytes
    pub mac : Bytes
    pub ipv6ll : Bytes
    pub ip : Bytes
    pub refresh : ℕ
    pub link : Link
    pub traffic : Traffic
    pub pings : Pings
    pub remote : Remote
    pub node_route_count : ℕ
    pub babel_route_count : ℕ
    pub babel_metric : ℕ
    pub routable : Bool

-- `deviceToType`; none stands for the empty type.
unfoldable pub device_to_type : Bytes → Option DeviceType
device_to_type device =
    if equal device (codes "br-dtdlink")
    then some dtd
    else if has_prefix device (codes "wg")
    then some wireguard
    else none
