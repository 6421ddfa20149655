-- ===== src/Net/RoundTrip.antt =====
-- The text form of an IPv4 address is read back as that address.
use mesh_manager.Common.{
  ℕ, zero, suc, ◌+◌, ◌*◌, ◌/◌, ◌%◌, ◌≤◌, ◌<◌, ◌≡◌, refl, sym, ap, ◌∙◌, true, false, ◌⊎◌, inl, inr,
  List, [], ◌∷◌, ◌++◌, Option, none, some, ltb, if◌then◌else◌, Bytes, itoa, digits, arith,
  Bool-cases,
}
use mathlib.Core.List.{append-nil}
use mesh_manager.Net.{
  Ip4, IsIp4, is_nil, three, v4, ip4_string, scan_ip4, is_dotted, parse_ip, ipv4_of,
}

-- The digits of a number below 1000.
abbrev octet : ℕ → Bytes
octet n =
    if ltb n 10
    then (48 + n) ∷ []
    else if ltb n 100
    then (48 + n / 10) ∷ (48 + n % 10) ∷ []
    else (48 + n / 10 / 10) ∷ (48 + n / 10 % 10) ∷ (48 + n % 10) ∷ []

digits-octet : (f n : ℕ) → n ≤ f → n < 1000 → digits (suc f) n [] ≡ octet n
unfolding digits
digits-octet zero n le h = ground arith
digits-octet (suc zero) n le h = ground arith
digits-octet (suc (suc f)) n le h = ground arith

itoa-octet : (n : ℕ) → n < 1000 → itoa n ≡ octet n
unfolding itoa
itoa-octet n h = digits-octet n n (omega arith) h

-- One digit that is allowed where it stands.
scan_digit :
    (val dig d v' : ℕ) (done : List ℕ) (rest : Bytes)
    → d < 10
    → val * 10 + d ≡ v'
    → v' < 256
    → (dig ≡ 0) ⊎ (0 < val)
    → scan_ip4 val dig done ((48 + d) ∷ rest) ≡ scan_ip4 v' (dig + 1) done rest
unfolding scan_ip4
scan_digit val dig d v' done rest small e lt ok = ground arith

-- The scanner reads an octet and stands in front of what follows it.
scan_octet :
    (n : ℕ) (done : List ℕ) (rest : Bytes)
    → n < 256
    → (d : ℕ) × (scan_ip4 0 0 done (octet n ++ rest) ≡ scan_ip4 n (suc d) done rest)
scan_octet n done rest h = elim (Bool-cases (ltb n 10)) [
  | inl one ↦ (0, rw one (scan_digit 0 0 n n done rest (ground arith) (omega arith) h (inl refl)))
  | inr more ↦ elim (Bool-cases (ltb n 100)) [
    | inl two ↦ (
      1,
      rw (more, two)
          (scan_digit 0 0 (n / 10) (n / 10) done _ (ground arith) (omega arith) (omega arith)
              (inl refl)
            ∙ scan_digit (n / 10) 1 (n % 10) n done rest (omega arith) (omega arith) h
                (inr (ground arith))),
    )
    | inr three ↦ (
      2,
      rw (more, three)
          (scan_digit 0 0 (n / 10 / 10) (n / 10 / 10) done _ (omega arith) (omega arith)
              (omega arith) (inl refl)
            ∙ scan_digit (n / 10 / 10) 1 (n / 10 % 10) (n / 10) done _ (omega arith) (omega arith)
                (omega arith) (inr (ground arith))
            ∙ scan_digit (n / 10) 2 (n % 10) n done rest (omega arith) (omega arith) h
                (inr (ground arith))),
    )
  ]
]

is_dotted-octet : (n : ℕ) (rest : Bytes) → n < 256 → is_dotted (octet n ++ (b'.' ∷ rest)) ≡ true
unfolding is_dotted
is_dotted-octet n rest h = ground arith

-- The dot behind an octet closes it, if more text follows and fewer than three are read.
scan_dot :
    (n d : ℕ) (done : List ℕ) (cs : Bytes)
    → is_nil cs ≡ false
    → three done ≡ false
    → scan_ip4 n (suc d) done (b'.' ∷ cs) ≡ scan_ip4 0 0 (n ∷ done) cs
unfolding scan_ip4
scan_dot n d done cs more few = ground arith

is_nil-octet : (n : ℕ) (rest : Bytes) → is_nil (octet n ++ rest) ≡ false
is_nil-octet n rest = ground arith

scan_octet_dot :
    (n : ℕ) (done : List ℕ) (m : ℕ) (rest : Bytes)
    → n < 256
    → three done ≡ false
    → scan_ip4 0 0 done (octet n ++ (b'.' ∷ (octet m ++ rest)))
      ≡ scan_ip4 0 0 (n ∷ done) (octet m ++ rest)
scan_octet_dot n done m rest h few =
    let (d, read) = scan_octet n done (b'.' ∷ (octet m ++ rest)) h in
    read ∙ scan_dot n d done (octet m ++ rest) (is_nil-octet m rest) few

scan_last :
    (n a b c : ℕ)
    → n < 256
    → scan_ip4 0 0 (c ∷ b ∷ a ∷ []) (octet n ++ [])
      ≡ some (record { o0 = a; o1 = b; o2 = c; o3 = n })
scan_last n a b c h =
    let (d, read) = scan_octet n (c ∷ b ∷ a ∷ []) [] h in read ∙ unfold scan_ip4 in refl

ip4_string-octet :
    (q : Ip4)
    → IsIp4 q
    → ip4_string q
      ≡ octet q.o0 ++ (b'.' ∷ (octet q.o1 ++ (b'.' ∷ (octet q.o2 ++ (b'.' ∷ (octet q.o3 ++ []))))))
unfolding ip4_string
ip4_string-octet q v = rw (
  itoa-octet q.o0 (omega arith),
  itoa-octet q.o1 (omega arith),
  itoa-octet q.o2 (omega arith),
  itoa-octet q.o3 (omega arith),
  append-nil,
)

-- `net.ParseIP` reads the text of an IPv4 address back, whatever reads IPv6 texts.
pub parse_ip-ip4_string :
    (parse_v6 : Bytes → Option Bytes) (q : Ip4)
    → IsIp4 q
    → parse_ip parse_v6 (ip4_string q) ≡ some (v4 q)
unfolding parse_ip
parse_ip-ip4_string parse_v6 q v =
    rw (ip4_string-octet q v, is_dotted-octet q.o0 _ v.lt0) (rw scan refl)
  where
    scan :
        scan_ip4 0 0 [] (
          octet q.o0
          ++ (b'.' ∷ (octet q.o1 ++ (b'.' ∷ (octet q.o2 ++ (b'.' ∷ (octet q.o3 ++ [])))))))
        ≡ some q
    scan =
        scan_octet_dot q.o0 [] q.o1 _ v.lt0 refl
        ∙ scan_octet_dot q.o1 (q.o0 ∷ []) q.o2 _ v.lt1 refl
        ∙ scan_octet_dot q.o2 (q.o1 ∷ q.o0 ∷ []) q.o3 _ v.lt2 refl
        ∙ scan_last q.o3 q.o0 q.o1 q.o2 v.lt3

-- So does `To4` behind it.
pub ipv4_of-ip4_string :
    (parse_v6 : Bytes → Option Bytes) (q : Ip4) → IsIp4 q → ipv4_of parse_v6 (ip4_string q) ≡ some q
unfolding ipv4_of
ipv4_of-ip4_string parse_v6 q v = rw (parse_ip-ip4_string parse_v6 q v, ipv4_of)

-- Two addresses with one text form are equal.
pub ip4_string-injective : (p q : Ip4) → IsIp4 p → IsIp4 q → ip4_string p ≡ ip4_string q → p ≡ q
ip4_string-injective p q u v h =
    let same : some p ≡ some q =
      sym (ipv4_of-ip4_string (λ _. none) p u)
      ∙ ap (ipv4_of (λ _. none)) h
      ∙ ipv4_of-ip4_string (λ _. none) q v in
    cc
