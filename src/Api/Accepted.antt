-- ===== src/Api/Accepted.antt =====
-- internal/server/api/controllers/v1/tunnels.go: the tunnels that `POSTTunnel` accepts.
use mesh_manager.Common.{
  ℕ, ◌<◌, ◌≤◌, ◌≡◌, refl, ◌⊎◌, inl, inr, Bool, true, false, not, List, [], ◌∷◌, ◌++◌, Option, none,
  some, ◌==◌, if◌then◌else◌, Bytes, any, length, take, drop, split, parse_uint, arith, All,
  Option-cases, subst, split_none, split_one, split-parts,
}
use mesh_manager.Net.{Ip4, Ip, v4, v6, parse_ip}
use mesh_manager.Models.{Tunnel, no_tunnel}
use mesh_manager.Api.{
  Outside, next, ◌>>◌, return, refuse, check_address, check_server_address, check_parts, check_host,
  check_port, server_address_invalid,
}
use mesh_manager.Api.Checks.{Checks-refuse}
use mesh_manager.Api.Results.{>>=-next, check-next, refuse-next}
use mesh_manager.Api.Create.{CreateTunnel, move_port, server_parts, check_keys}

-- A tunnel that the Wireguard manager can bring up: an address in 172.16.0.0/12, the server's name
-- and its port, and three keys.
pub record Usable (w : Outside) (t : Tunnel) : Type 0 where
  pub address : Ip4
  pub host : Bytes
  pub port_text : Bytes
  pub port : ℕ
  pub address_is : parse_ip w.parse_v6 t.ip ≡ some (v4 address)
  pub first_octet : address.o0 ≡ 172
  pub second_low : 16 ≤ address.o1
  pub second_high : address.o1 < 32
  pub server_parts_are : split b':' t.hostname ≡ host ∷ port_text ∷ []
  pub port_is : parse_uint 65535 port_text ≡ some port
  pub port_low : 0 < port
  pub password_length : length t.password ≡ 132
  pub server_key_is : w.is_key (take 44 t.password) ≡ true
  pub client_key_is : w.is_key (drop 44 (take 88 t.password)) ≡ true
  pub client_public_is : w.is_key (drop 88 t.password) ≡ true

Ip-cases :
    (o : Option Ip)
    → (o ≡ none) ⊎ (((q : Ip4) × (o ≡ some (v4 q))) ⊎ ((bs : Bytes) × (o ≡ some (v6 bs))))
Ip-cases none = inl refl
Ip-cases (some (v4 q)) = inr (inl (q, refl))
Ip-cases (some (v6 bs)) = inr (inr (bs, refl))

is_132 : (n : ℕ) → not (n == 132) ≡ false → n ≡ 132
is_132 n h = ground arith

positive : (b : Bool) → not b ≡ false → b ≡ true
positive b h = ground arith

module _ {S : Type 0} (w : Outside) where
  pub check_address-next :
      (text : Bytes) (s s' : S) (u : Unit {0})
      → check_address w text s ≡ next s' u
      → (q : Ip4) × (parse_ip w.parse_v6 text ≡ some (v4 q))
        × (q.o0 ≡ 172)
        × (16 ≤ q.o1)
        × (q.o1 < 32)
  unfolding check_address
  check_address-next text s s' u e = elim (Ip-cases (parse_ip w.parse_v6 text)) [
    | inl p ↦ ground arith
    | inr (inl (q, p)) ↦ (q, p, ground arith, ground arith, ground arith)
    | inr (inr (bs, p)) ↦ ground arith
  ]

  check_port-next :
      (text : Bytes) (s s' : S) (u : Unit {0})
      → check_port w text s ≡ next s' u
      → (n : ℕ) × (parse_uint 65535 text ≡ some n) × (0 < n)
  check_port-next text s s' u e = elim (Option-cases (parse_uint 65535 text)) [
    | inl p ↦ ground arith
    | inr (n, p) ↦ (n, p, ground arith)
  ]

  check_keys-next :
      (password : Bytes) (s s' : S) (u : Unit {0})
      → check_keys w password s ≡ next s' u
      → (length password ≡ 132)
        × (w.is_key (take 44 password) ≡ true)
        × (w.is_key (drop 44 (take 88 password)) ≡ true)
        × (w.is_key (drop 88 password) ≡ true)
  unfolding check_keys
  check_keys-next password s s' u e =
      let (_, a, e1) =
        check-next (refuse (not (length password == 132)) _) _ s s' u (Checks-refuse _ _ s) e in
      let (_, b, e2) =
        check-next (refuse (not (w.is_key (take 44 password))) _) _ s s' u (Checks-refuse _ _ s)
          e1 in
      let (_, c, d) =
        check-next (refuse (not (w.is_key (drop 44 (take 88 password)))) _) _ s s' u
          (Checks-refuse _ _ s) e2 in
      let fa = refuse-next _ _ s s tt a in
      let fb = refuse-next _ _ s s tt b in
      let fc = refuse-next _ _ s s tt c in
      let fd = refuse-next _ _ s s' u d in
      (is_132 (length password) fa, positive _ fb, positive _ fc, positive _ fd)

  check_server_address-next :
      (hostname host port : Bytes) (s s' : S) (u : Unit {0})
      → split b':' hostname ≡ host ∷ port ∷ []
      → check_server_address w hostname s ≡ next s' u
      → (n : ℕ) × (parse_uint 65535 port ≡ some n) × (0 < n)
  unfolding check_server_address
  check_server_address-next hostname host port s s' u parts e =
      let checked : check_parts w (host ∷ port ∷ []) s ≡ next s' u =
        subst (λ ps. check_parts w ps s ≡ next s' u) parts e in
      let (s₁, _, _, at_port) =
        >>=-next (check_host w host) (λ _. check_port w port) s s' u checked in
      check_port-next port s₁ s' u at_port

  moved_parts :
      (json moved : CreateTunnel) (parts : List Bytes) (s s' : S)
      → move_port json parts s ≡ next s' moved
      → (address port : Bytes) × (parts ≡ address ∷ port ∷ [])
        × (moved ≡ record json { hostname = json.hostname ++ (b':' ∷ port); ip = address })
  moved_parts json moved [] s s' e = cc
  moved_parts json moved (a ∷ []) s s' e = cc
  moved_parts json moved (a ∷ p ∷ []) s s' e = (a, p, refl, cc)
  moved_parts json moved (a ∷ p ∷ q ∷ rest) s s' e = cc

  -- What `server_parts` has found of a Wireguard request.
  pub server_parts-next :
      (json moved : CreateTunnel) (s s' : S)
      → json.wireguard ≡ true
      → server_parts json s ≡ next s' moved
      → (address port : Bytes) × (any (λ c. c == b':') json.hostname ≡ false)
        × (split b':' json.ip ≡ address ∷ port ∷ [])
        × (moved ≡ record json { hostname = json.hostname ++ (b':' ∷ port); ip = address })
  unfolding server_parts
  server_parts-next json moved s s' wg e =
      let (s₁, _, a, e1) =
        >>=-next (refuse (any (λ c. c == b':') json.hostname) server_address_invalid)
          (λ _. move_port json (split b':' json.ip)) s s' moved
          (subst
            (λ (b : Bool).
              (if b
                  then refuse (any (λ c. c == b':') json.hostname) server_address_invalid
                    >> move_port json (split b':' json.ip)
                  else return json)
                s
              ≡ next s' moved)
            wg e) in
      let (address, port, parts, is) = moved_parts json moved (split b':' json.ip) s₁ s' e1 in
      (address, port, refuse-next _ _ s s₁ tt a, parts, is)

pub joined_parts :
    (host text address port : Bytes)
    → any (λ c. c == b':') host ≡ false
    → split b':' text ≡ address ∷ port ∷ []
    → split b':' (host ++ (b':' ∷ port)) ≡ host ∷ port ∷ []
joined_parts host text address port plain parts =
    let all = subst (All (λ p. any (λ c. c == b':') p ≡ false)) parts (split-parts b':' text) in
    rw (split_one b':' host port plain, split_none b':' port all.1.0) refl

-- The row that a moved request asks for.
abbrev pub client_tunnel : CreateTunnel → Tunnel
client_tunnel moved = record no_tunnel {
  hostname = moved.hostname;
  password = moved.password;
  ip = moved.ip;
  client = moved.client;
  is_wireguard = moved.wireguard;
}

pub Usable-row :
    {S : Type 0} (w : Outside) (moved : CreateTunnel) (q : Ip4) (host port : Bytes) (s : S)
    (u v : Unit {0})
    → parse_ip w.parse_v6 moved.ip ≡ some (v4 q)
    → q.o0 ≡ 172
    → 16 ≤ q.o1
    → q.o1 < 32
    → split b':' moved.hostname ≡ host ∷ port ∷ []
    → check_server_address w moved.hostname s ≡ next s u
    → check_keys w moved.password s ≡ next s v
    → Usable w (client_tunnel moved)
Usable-row w moved q host port s u v is o0 low high parts served keyed =
    let (n, is_port, positive_port) =
      check_server_address-next w moved.hostname host port s s u parts served in
    let (long, a, b, d) = check_keys-next w moved.password s s v keyed in
    record {
      address = q;
      host = host;
      port_text = port;
      port = n;
      address_is = is;
      first_octet = o0;
      second_low = low;
      second_high = high;
      server_parts_are = parts;
      port_is = is_port;
      port_low = positive_port;
      password_length = long;
      server_key_is = a;
      client_key_is = b;
      client_public_is = d;
    }

pub returned : {S A : Type 0} (s s' : S) (a b : A) → next s a ≡ next s' b → a ≡ b
returned s s' a b e = cc
