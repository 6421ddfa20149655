-- ===== src/Wireguard.antt =====
-- internal/wireguard/wireguard.go: `addPeer`, `removePeer` and the peers that are active. The
-- kernel, the key parser, the resolver and the choice of a free port are parameters.
pub mod Address
pub mod Peers
pub mod Manager
pub mod Calls
pub mod Complete
pub mod Devices
pub mod Plan
pub mod Safe
pub mod SetUp
mod Tests
use mesh_manager.Common.{
  ℕ, zero, suc, ◌+◌, ◌%◌, ◌≡◌, Bool, true, false, not, ◌&&◌, ◌||◌, List, [], ◌∷◌, ◌++◌, Option,
  none, some, ltb, ◌==◌, if◌then◌else◌, Bytes, codes, equal, any, length, take, drop, split, ℤ,
  parse_int,
}
use mesh_manager.Net.{Ip4, Ip, v4, v6, to4, parse_ip}
use mesh_manager.Models.{Tunnel, interface_name, is_server}

-- A call that changes the kernel.
pub record Endpoint : Type 0 where
  pub host : Bytes
  pub port : ℤ

pub record Device : Type 0 where
  pub private_key : Bytes
  pub listen_port : ℕ
  pub peer_key : Bytes
  pub endpoint : Option Endpoint

pub data Call : Type 0 where
  link_add link_set_up link_set_down link_del : Bytes → Call
  addr_replace : Bytes → Option Ip → Call
  addr_add : Bytes → Bytes → Call
  configure_device : Bytes → Device → Call
  rule_add : Bytes → ℕ → ℕ → Call

-- What `AddrList` gives: the IPv6 addresses, those read before the dump was
-- interrupted, or another error.
pub data Addrs : Type 0 where
  addrs_are : List Bytes → Addrs
  interrupted : List Bytes → Addrs
  addrs_failed : Addrs

-- The kernel behind `netlink` and `wgctrl`: a call fails and changes nothing, or gives a new state.
-- A link that is there is up or not.
pub record Kernel : Type 1 where
  pub State : Type 0
  pub perform : State → Call → Option State
  pub link_by_name : State → Bytes → Option Bool
  pub addr_list : State → Bytes → ℕ → Addrs

-- The rest of the outside: `rand.Read`, the reader of IPv6 texts, `wgtypes.ParseKey`,
-- `freeport.GetPort`, which panics when there is no port, and the resolver.
pub record World : Type 0 where
  pub random : ℕ → Bool
  pub parse_v6 : Bytes → Option Bytes
  pub parse_key : Bytes → Option Bytes
  pub free_port : Option ℕ
  pub resolve : Bytes → Option (List Bytes)

-- A run ends well, gives up after an error, or panics; the kernel keeps what was done.
pub data Run (S A : Type 0) : Type 0 where
  done : S → A → Run S A
  stopped : S → Run S A
  crashed : S → Run S A

-- The client's address: one above the server's, with the carries of `addPeer`.
abbrev byte_suc : ℕ → ℕ
byte_suc n = (n + 1) % 256

unfoldable pub client_ip : Ip4 → Ip4
client_ip q =
    if byte_suc q.o3 == 0
    then if byte_suc q.o2 == 0
      then if byte_suc q.o1 == 0
        then record { o0 = byte_suc q.o0; o1 = 0; o2 = 0; o3 = 1 }
        else record q { o1 = byte_suc q.o1; o2 = 0; o3 = 1 }
      else record q { o2 = byte_suc q.o2; o3 = 1 }
    else record q { o3 = byte_suc q.o3 }

-- internal/utils/ip.go, `GenerateIPv6LinkLocalAddress`, as its 16 bytes.
unfoldable pub link_local : Ip4 → Bytes
link_local q =
    0xfe ∷ 0x80 ∷ 0 ∷ 0 ∷ 0 ∷ 0 ∷ 0 ∷ 0 ∷ 2 ∷ 0 ∷ q.o0 ∷ 0xff ∷ 0xfe ∷ q.o1 ∷ q.o2 ∷ q.o3 ∷ []

-- The routing rules: priority and table.
abbrev pub rules : List (ℕ × ℕ)
rules = (10, 29) ∷ (20, 20) ∷ (30, 21) ∷ (50, 28) ∷ (60, 22) ∷ (70, 99) ∷ []

-- A step on the state `S`, and how steps follow each other.
abbrev pub M : Type 0 → Type 0 → Type 0
M S A = S → Run S A

module _ {S : Type 0} where
  infixl 5 ◌>>=◌ ◌>>◌
  abbrev pub ◌>>=◌ : {A B : Type 0} → M S A → (A → M S B) → M S B
  ◌>>=◌ m f s = elim (m s) [
    | done s' a ↦ f a s'
    | stopped s' ↦ stopped s'
    | crashed s' ↦ crashed s'
  ]

  abbrev pub ◌>>◌ : {B : Type 0} → M S (Unit {0}) → M S B → M S B
  m >> n = m >>= λ _. n

  abbrev pub return : {A : Type 0} → A → M S A
  return a s = done s a

  abbrev pub give_up : {A : Type 0} → M S A
  give_up s = stopped s

  abbrev pub crash : {A : Type 0} → M S A
  crash s = crashed s

  -- The value of a call that panics without one.
  abbrev pub must : {A : Type 0} → Option A → M S A
  must none = crash
  must (some a) = return a

  -- A value that has to be there.
  abbrev pub need : {A : Type 0} → Option A → M S A
  need none = give_up
  need (some a) = return a

  abbrev pub skip : M S (Unit {0})
  skip = return tt

-- A call whose error is logged before `addPeer` returns.
abbrev pub call : (k : Kernel) → Call → M k.State (Unit {0})
call k c s = elim (k.perform s c) [ none ↦ stopped s | some s' ↦ done s' tt ]
