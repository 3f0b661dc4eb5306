-- ===== src/Ring2/Addr/Shape.antt =====
-- What every address that is made looks like.
use hnet.Prelude.{
  ◌↔◌, zero, suc, ◌≢◌, ℕ, ◌^◌, ◌<◌, ◌≡◌, refl, subst, inl, inr, List, [], ◌∷◌, ◌++◌, some, length,
  replicate, Option-cases, arith,
}
use hnet.Prelude.Results.{ok, err}
use hnet.Ring2.Addr.{
  SockAddrIn6, from_addr_in6, af_inet, af_inet6, af_unspec, IpFamily, v4, v6, SockAddr, unspec, in4,
  in6, foreign, Addr, htons, bytes_of_u32, of_in4, of_in6, ip6_any, ip6_local, ip4_any, ip4_local,
  Inet, from_parts, to_string, print_addr, unreachable,
}

-- Each number is a byte.
abbrev pub AreBytes : List ℕ → Type 0
AreBytes [] = Unit {0}
AreBytes (b ∷ bs) = (b < 256) × AreBytes bs

-- `sockaddr_in` or `sockaddr_in6` with a port of 16 bits, an address of 4 or 16 bytes, and the
-- length of its own structure.
abbrev IsSockAddr : SockAddr → ℕ → Type 0
IsSockAddr unspec len = ⊥
IsSockAddr (in4 port bytes) len = (port < 2 ^ 16) × (length bytes ≡ 4) × AreBytes bytes × (len ≡ 16)
IsSockAddr (in6 port bytes) len =
    (port < 2 ^ 16) × (length bytes ≡ 16) × AreBytes bytes × (len ≡ 28)
IsSockAddr (foreign family) len = ⊥

abbrev pub IsAddr : Addr → Type 0
IsAddr a = IsSockAddr a.addr a.addrlen

-- `inet_pton` writes a `struct in_addr` or a `struct in6_addr`.
pub record WritesBytes (i : Inet) : Type 0 where
  pub four : (text bytes : List ℕ) → i.pton4 text ≡ some bytes → (length bytes ≡ 4) × AreBytes bytes
  pub sixteen :
      (text bytes : List ℕ) → i.pton6 text ≡ some bytes → (length bytes ≡ 16) × AreBytes bytes

htons_less : (p : ℕ) → htons p < 2 ^ 16
unfolding htons
htons_less p = omega arith

of_in4-IsAddr :
    (bytes : List ℕ) (port : ℕ) → length bytes ≡ 4 → AreBytes bytes → IsAddr (of_in4 bytes port)
unfolding of_in4
of_in4-IsAddr bytes port four fits = (htons_less port, four, fits, refl)

of_in6-IsAddr :
    (bytes : List ℕ) (port : ℕ) → length bytes ≡ 16 → AreBytes bytes → IsAddr (of_in6 bytes port)
unfolding of_in6
of_in6-IsAddr bytes port sixteen fits = (htons_less port, sixteen, fits, refl)

bytes_of_u32-AreBytes : (x : ℕ) → AreBytes (bytes_of_u32 x)
unfolding bytes_of_u32
bytes_of_u32-AreBytes x = (omega arith, (omega arith, (omega arith, (omega arith, tt))))

length-bytes_of_u32 : (x : ℕ) → length (bytes_of_u32 x) ≡ 4
unfolding bytes_of_u32
length-bytes_of_u32 x = refl

zeros-AreBytes : (n : ℕ) (bytes : List ℕ) → AreBytes bytes → AreBytes (replicate n 0 ++ bytes)
zeros-AreBytes zero bytes rest = rest
zeros-AreBytes (suc n) bytes rest = (omega arith, zeros-AreBytes n bytes rest)

from_parts-IsAddr :
    (i : Inet) (text : List ℕ) (port : ℕ) (family : IpFamily) (a : Addr)
    → WritesBytes i
    → from_parts i text port family ≡ ok a
    → IsAddr a
unfolding from_parts
from_parts-IsAddr i text port v4 a writes made = elim (Option-cases (i.pton4 text)) [
  | inl failed ↦ absurd (ground (arith, failed))
  | inr (bytes, parsed) ↦
      let (four, fits) = writes.four text bytes parsed in
      let same : of_in4 bytes port ≡ a = ground (arith, parsed) in
      subst IsAddr same (of_in4-IsAddr bytes port four fits)
]
from_parts-IsAddr i text port v6 a writes made = elim (Option-cases (i.pton6 text)) [
  | inl failed ↦ absurd (ground (arith, failed))
  | inr (bytes, parsed) ↦
      let (sixteen, fits) = writes.sixteen text bytes parsed in
      let same : of_in6 bytes port ≡ a = ground (arith, parsed) in
      subst IsAddr same (of_in6-IsAddr bytes port sixteen fits)
]

prints_inet4 :
    (i : Inet) (port : ℕ) (bytes : List ℕ) (len : ℕ)
    → to_string i (record { addr = in4 port bytes; addrlen = len }) ≢ err unreachable
unfolding to_string print_addr
prints_inet4 i port bytes len e = elim (Option-cases (i.ntop4 bytes)) [
  | inl failed ↦ ground (arith, failed)
  | inr (text, printed) ↦ ground (arith, printed)
]

prints_inet6 :
    (i : Inet) (port : ℕ) (bytes : List ℕ) (len : ℕ)
    → to_string i (record { addr = in6 port bytes; addrlen = len }) ≢ err unreachable
unfolding to_string print_addr
prints_inet6 i port bytes len e = elim (Option-cases (i.ntop6 bytes)) [
  | inl failed ↦ ground (arith, failed)
  | inr (text, printed) ↦ ground (arith, printed)
]

-- An address of this shape has a text, or its conversion fails in the C library.
prints :
    (i : Inet) (addr : SockAddr) (len : ℕ)
    → IsSockAddr addr len
    → to_string i (record { addr = addr; addrlen = len }) ≢ err unreachable
prints i unspec len shape e = elim shape [ ]
prints i (foreign family) len shape e = elim shape [ ]
prints i (in4 port bytes) len shape e = prints_inet4 i port bytes len e
prints i (in6 port bytes) len shape e = prints_inet6 i port bytes len e

-- An address of this shape, whose text is not the branch that the code takes for unreachable.
abbrev pub Prints : Inet → Addr → Type 0
Prints i a = IsAddr a × (to_string i a ≢ err unreachable)

any_local-Prints :
    (i : Inet) (port : ℕ)
    → Prints i (ip4_any port)
      × Prints i (ip4_local port)
      × Prints i (ip6_any port)
      × Prints i (ip6_local port)
unfolding ip4_any ip4_local ip6_any ip6_local
any_local-Prints i port =
    let any4 =
      of_in4-IsAddr (bytes_of_u32 0) port (length-bytes_of_u32 0) (bytes_of_u32-AreBytes 0) in
    let local4 =
      of_in4-IsAddr (bytes_of_u32 0x7f00_0001) port (length-bytes_of_u32 0x7f00_0001)
        (bytes_of_u32-AreBytes 0x7f00_0001) in
    let any6 = of_in6-IsAddr (replicate 16 0) port refl (zeros-AreBytes 16 [] tt) in
    let local6 =
      of_in6-IsAddr (replicate 15 0 ++ 1 ∷ []) port refl
        (zeros-AreBytes 15 (1 ∷ []) (omega arith, tt)) in
    (
      (any4, prints i (ip4_any port).addr 16 any4),
      (local4, prints i (ip4_local port).addr 16 local4),
      (any6, prints i (ip6_any port).addr 28 any6),
      (local6, prints i (ip6_local port).addr 28 local6),
    )

-- A copied structure of another family is the one whose text is not reachable.
copied_lem :
    (i : Inet) (from : SockAddrIn6)
    → (to_string i (from_addr_in6 from) ≡ err unreachable) ↔ (
        (from.sin6_family ≢ af_inet6)
        × (from.sin6_family ≢ af_inet)
        × (from.sin6_family ≢ af_unspec))
unfolding from_addr_in6 to_string print_addr
copied_lem i from = ground (
  arith,
  prints_inet4 i from.sin6_port from.sin6_flowinfo 28,
  prints_inet6 i from.sin6_port from.sin6_addr 28,
)

-- When the C library writes whole addresses of bytes, an address that is made from a text, and those
-- of the four makers for any host and the local one, have a port of 16 bits, an address of the bytes
-- of their family, and the length of their own structure, and to print one is never the case that the
-- code takes for unreachable. To print an address that is copied from a `sockaddr_in6` is that case
-- exactly when the family in the structure is neither IPv6 nor IPv4 nor the unspecified one.
pub from_parts-shape :
    (i : Inet) (text : List ℕ) (port : ℕ) (family : IpFamily) (a : Addr) (from : SockAddrIn6)
    → WritesBytes i
    → from_parts i text port family ≡ ok a
    → Prints i a
      × Prints i (ip4_any port)
      × Prints i (ip4_local port)
      × Prints i (ip6_any port)
      × Prints i (ip6_local port)
      × ((to_string i (from_addr_in6 from) ≡ err unreachable) ↔ (
          (from.sin6_family ≢ af_inet6)
          × (from.sin6_family ≢ af_inet)
          × (from.sin6_family ≢ af_unspec)))
from_parts-shape i text port family a from writes made =
    let shape = from_parts-IsAddr i text port family a writes made in
    let (any4, local4, any6, local6) = any_local-Prints i port in
    ((shape, prints i a.addr a.addrlen shape), any4, local4, any6, local6, copied_lem i from)
