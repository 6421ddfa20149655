-- ===== src/Olsr/Generator/Interfaces.antt =====
-- internal/services/olsr/generator.go: the interfaces that the configuration names.
use mesh_manager.Common.{
  ◌≡◌, ◌≢◌, ◌∙◌, ap, refl, Bool, true, false, List, [], ◌∷◌, ◌++◌, Bytes, codes, if◌then◌else◌,
  ◌==◌, map, select, All, fields, fields-space, fields-end, has_space, has_space-append, itoa,
  itoa-has_space, arith,
}
use mathlib.Core.List.{append-nil}
use mesh_manager.Models.{Tunnel, interface_name, is_server}
use mesh_manager.Olsr.Generator.{quoted, tunnel_string, tunnel_names, last_of}

prefix-has_space : (b : Bool) → has_space (if b then codes "wgs" else codes "wgc") ≡ false
prefix-has_space true = refl
prefix-has_space false = refl

no_space : (p q : Bytes) → has_space p ≡ false → has_space q ≡ false → has_space (p ++ q) ≡ false
no_space p q h k = ground (arith, has_space-append p q)

quoted-has_space : (t : Tunnel) → has_space (quoted t) ≡ false
unfolding interface_name
quoted-has_space t =
    no_space (interface_name t) (b'"' ∷ [])
      (no_space (if is_server t then codes "wgs" else codes "wgc") (itoa t.id)
        (prefix-has_space (is_server t)) (itoa-has_space t.id))
      refl

last_of-append : (t last : Tunnel) (front : List Tunnel) → last_of t (front ++ last ∷ []) ≡ last
last_of-append t last [] = refl
last_of-append t last (u ∷ front) = last_of-append u last front

one_name :
    (t last : Tunnel) (rest : Bytes)
    → t.id ≢ last.id
    → fields (quoted t ++ ((if t.id == last.id then [] else 32 ∷ []) ++ rest))
      ≡ quoted t ∷ fields rest
one_name t last rest apart =
    let differ : (t.id == last.id) ≡ false = ground arith in
    rw differ (fields-space b'"' (interface_name t ++ (b'"' ∷ [])) rest (quoted-has_space t))

last_case :
    (b : Bool) (t : Tunnel) (s : Bytes)
    → s ≡ []
    → fields (if b then quoted t ++ (s ++ []) else []) ≡ map quoted (if b then t ∷ [] else [])
unfolding fields
last_case false t s e = refl
last_case true t s e =
    ap (λ s'. fields (quoted t ++ (s' ++ []))) e
    ∙ ap fields (append-nil (quoted t))
    ∙ fields-end b'"' (interface_name t ++ (b'"' ∷ [])) (quoted-has_space t)

last_name :
    (last : Tunnel)
    → fields (tunnel_string last (last ∷ [])) ≡ map quoted (select (λ t. t.enabled) (last ∷ []))
unfolding tunnel_string
last_name last =
    let same : (if last.id == last.id then [] else 32 ∷ []) ≡ [] = ground arith in
    last_case last.enabled last (if last.id == last.id then [] else 32 ∷ []) same

front_case :
    (b : Bool) (t : Tunnel) (s rest : Bytes) (ts : List Tunnel)
    → fields (quoted t ++ (s ++ rest)) ≡ quoted t ∷ fields rest
    → fields rest ≡ map quoted ts
    → fields (if b then quoted t ++ (s ++ rest) else rest) ≡ map quoted (if b then t ∷ ts else ts)
front_case false t s rest ts one more = more
front_case true t s rest ts one more = one ∙ ap (λ ws. quoted t ∷ ws) more

names :
    (last : Tunnel) (front : List Tunnel)
    → All (λ t. t.id ≢ last.id) front
    → fields (tunnel_string last (front ++ last ∷ []))
      ≡ map quoted (select (λ t. t.enabled) (front ++ last ∷ []))
unfolding tunnel_string
names last [] all = last_name last
names last (t ∷ front) (apart, all) =
    front_case t.enabled t (if t.id == last.id then [] else 32 ∷ [])
      (tunnel_string last (front ++ last ∷ [])) (select (λ t. t.enabled) (front ++ last ∷ []))
      (one_name t last (tunnel_string last (front ++ last ∷ [])) apart) (names last front all)

named :
    (t last : Tunnel) (front : List Tunnel)
    → tunnel_names (t ∷ (front ++ last ∷ [])) ≡ tunnel_string last (t ∷ (front ++ last ∷ []))
unfolding tunnel_names
named t last front =
    ap (λ l. tunnel_string l (t ∷ (front ++ last ∷ []))) (last_of-append t last front)

-- The daemon, which reads words, finds in the text for `${IFACES}` the quoted names of the
-- Wireguard tunnels that are enabled, one after the other, whether the last tunnel is enabled or
-- not. No two tunnels have one id.
pub fields-tunnel_names :
    (last : Tunnel) (front : List Tunnel)
    → All (λ t. t.id ≢ last.id) front
    → fields (tunnel_names (front ++ last ∷ []))
      ≡ map quoted (select (λ t. t.enabled) (front ++ last ∷ []))
unfolding tunnel_names
fields-tunnel_names last [] all = last_name last
fields-tunnel_names last (t ∷ front) all =
    ap fields (named t last front) ∙ names last (t ∷ front) all
