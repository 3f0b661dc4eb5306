-- ===== src/Ring2/Addr.antt =====
-- ring2/ring2/addr.h and addr.cc: socket addresses. The host is little-endian, as io_uring's users
-- mostly are: a number is stored with its low byte first.
pub mod Text
pub mod Shape
use hnet.Prelude.{
  if◌then◌else◌, ℕ, ◌+◌, ◌*◌, ◌/◌, ◌%◌, ◌≡◌, Bool, true, false, List, [], ◌∷◌, ◌++◌, Option, none,
  some, ◌==◌, replicate, length,
}
use hnet.Prelude.Results.{Result, ok, err, ◌>>=◌}

pub data IpFamily : Type 0 where
  v4 v6 : IpFamily

-- A union of `sockaddr_in` and `sockaddr_in6`, told apart by its `sa_family`. The port is the
-- 16-bit number that lies in memory, and an address its bytes in memory order.
pub data SockAddr : Type 0 where
  unspec : SockAddr
  in4 : (sin_port : ℕ) → (s_addr : List ℕ) → SockAddr
  in6 : (sin6_port : ℕ) → (sin6_addr : List ℕ) → SockAddr
  foreign : (sa_family : ℕ) → SockAddr

pub record Addr : Type 0 where
  pub addr : SockAddr
  pub addrlen : ℕ

pub data Error : Type 0 where
  inet_pton_failed inet_ntop_failed unreachable : Error

-- `htons`, and `ntohs`, which is the same function: the two bytes change places.
unfoldable pub htons : ℕ → ℕ
htons p = p % 256 * 256 + p / 256 % 256

-- A 32-bit number as it lies in memory.
unfoldable pub bytes_of_u32 : ℕ → List ℕ
bytes_of_u32 x = x % 256 ∷ x / 256 % 256 ∷ x / 65_536 % 256 ∷ x / 16_777_216 % 256 ∷ []

abbrev sizeof_in4 : ℕ
sizeof_in4 = 16

abbrev sizeof_in6 : ℕ
sizeof_in6 = 28

-- `Addr::Addr` leaves the union as the memory happens to be.
unfoldable pub default_addr : SockAddr → Addr
default_addr garbage = record { addr = garbage; addrlen = sizeof_in6 }

unfoldable pub of_in4 : List ℕ → ℕ → Addr
unfolding htons
of_in4 s_addr port = record { addr = in4 (htons port) s_addr; addrlen = sizeof_in4 }

-- `from_in6_addr`.
unfoldable pub of_in6 : List ℕ → ℕ → Addr
unfolding htons
of_in6 sin6_addr port = record { addr = in6 (htons port) sin6_addr; addrlen = sizeof_in6 }

-- `in6addr_any` and `in6addr_loopback` are bytes in network order; `INADDR_ANY` and
-- `INADDR_LOOPBACK` are numbers in host order.
unfoldable pub ip6_any : ℕ → Addr
unfolding of_in6
ip6_any port = of_in6 (replicate 16 0) port

unfoldable pub ip6_local : ℕ → Addr
unfolding of_in6
ip6_local port = of_in6 (replicate 15 0 ++ 1 ∷ []) port

unfoldable pub ip4_any : ℕ → Addr
unfolding of_in4 bytes_of_u32
ip4_any port = of_in4 (bytes_of_u32 0) port

unfoldable pub ip4_local : ℕ → Addr
unfolding of_in4 bytes_of_u32
ip4_local port = of_in4 (bytes_of_u32 0x7f00_0001) port

-- A `sockaddr_in6` of the caller's: the family need not be that of IPv6. The flow information is the
-- four bytes where a `sockaddr_in` has its address.
pub record SockAddrIn6 : Type 0 where
  pub sin6_family : ℕ
  pub sin6_port : ℕ
  pub sin6_flowinfo : List ℕ
  pub sin6_addr : List ℕ

abbrev pub af_unspec : ℕ
af_unspec = 0

abbrev pub af_inet : ℕ
af_inet = 2

abbrev pub af_inet6 : ℕ
af_inet6 = 10

-- The whole structure is copied into the union, its family too, and the length is always its own.
unfoldable pub from_addr_in6 : SockAddrIn6 → Addr
from_addr_in6 a = record {
  addr =
      if a.sin6_family == af_inet6
      then in6 a.sin6_port a.sin6_addr
      else (if a.sin6_family == af_inet
          then in4 a.sin6_port a.sin6_flowinfo
          else (if a.sin6_family == af_unspec then unspec else foreign a.sin6_family));
  addrlen = sizeof_in6;
}

-- The C library's conversions between an address and its text, and fmt's decimal text of a number.
pub record Inet : Type 0 where
  pub pton4 : List ℕ → Option (List ℕ)
  pub pton6 : List ℕ → Option (List ℕ)
  pub ntop4 : List ℕ → Option (List ℕ)
  pub ntop6 : List ℕ → Option (List ℕ)
  pub decimal : ℕ → List ℕ

abbrev or_throw : {A : Type 0} → Option A → Error → Result Error A
or_throw none e = err e
or_throw (some a) e = ok a

module _ (i : Inet) where
  unfoldable pub from_parts : List ℕ → ℕ → IpFamily → Result Error Addr
  unfolding of_in4 of_in6
  from_parts address port v4 = do
    bytes ← or_throw (i.pton4 address) inet_pton_failed
    ok (of_in4 bytes port)
  from_parts address port v6 = do
    bytes ← or_throw (i.pton6 address) inet_pton_failed
    ok (of_in6 bytes port)

  print_addr : SockAddr → Result Error (List ℕ)
  unfolding htons
  print_addr unspec = ok (b'(' ∷ b'n' ∷ b'u' ∷ b'l' ∷ b'l' ∷ b')' ∷ [])
  print_addr (in4 port bytes) = do
    ip_str ← or_throw (i.ntop4 bytes) inet_ntop_failed
    ok (ip_str ++ b':' ∷ i.decimal (htons port))
  print_addr (in6 port bytes) = do
    ip_str ← or_throw (i.ntop6 bytes) inet_ntop_failed
    ok (b'[' ∷ (ip_str ++ b']' ∷ b':' ∷ i.decimal (htons port)))
  print_addr (foreign family) = err unreachable

  unfoldable pub to_string : Addr → Result Error (List ℕ)
  unfolding print_addr
  to_string a = print_addr a.addr
