-- ===== src/Netring/Net.antt =====
-- netring/netring/net.h and net.cc: IPv6 addresses and the UDP socket of netring, an earlier form of
-- those of ring2, whose types of addresses and system calls serve here too.
pub mod Agreement
use hnet.Prelude.{
  ℕ, ◌%◌, ◌/◌, List, [], ◌∷◌, ◌++◌, Option, none, some, length, take, replicate, ltb, if◌then◌else◌,
}
use hnet.Prelude.Int.{ℤ, pos, ◌==ℤ◌, leb_ℤ}
use hnet.Prelude.Options.{◌>>=◌}
use hnet.Prelude.Results.{Result, ok, err}
use hnet.Ring2.Addr.{Addr, in6, Inet, htons, Error, inet_pton_failed}
use hnet.Ring2.Sock.{
  Sockets, Socket, Error as SockError, socket_failed, bind_failed, af_inet6, sock_dgram,
}
use hnet.Netring.Request.{SockAddr6}

abbrev sizeof_sockaddr6 : ℕ
sizeof_sockaddr6 = 28

-- `Addr::from_addr_in6`; an `Addr` here is always one of IPv6.
unfoldable pub of_sockaddr6 : SockAddr6 → Addr
of_sockaddr6 a = record { addr = in6 a.sin6_port a.sin6_addr; addrlen = sizeof_sockaddr6 }

-- `from_in6_addr`, `Addr::ip6_any` and `Addr::ip6_local`.
unfoldable pub of_in6_addr : List ℕ → ℕ → Addr
unfolding htons
of_in6_addr bytes port = record { addr = in6 (htons port) bytes; addrlen = sizeof_sockaddr6 }

unfoldable pub any6 : ℕ → Addr
unfolding of_in6_addr
any6 port = of_in6_addr (replicate 16 0) port

unfoldable pub local6 : ℕ → Addr
unfolding of_in6_addr
local6 port = of_in6_addr (replicate 15 0 ++ 1 ∷ []) port

-- A `sockaddr_in6` in memory: the family 10, the port, the flow information, the address and the
-- scope, the two that are not used being zero.
abbrev pub memory_of : SockAddr6 → List ℕ
memory_of a =
    10
    ∷ 0
    ∷ a.sin6_port % 256
    ∷ a.sin6_port / 256
    ∷ (replicate 4 0 ++ (a.sin6_addr ++ replicate 4 0))

module _ (i : Inet) where
  -- `Addr::from_parts`.
  unfoldable pub parse6 : List ℕ → ℕ → Result Error Addr
  unfolding htons
  parse6 address port = elim (i.pton6 address) [
    | none ↦ err inet_pton_failed
    | some bytes ↦ ok (record { addr = in6 (htons port) bytes; addrlen = sizeof_sockaddr6 })
  ]

  -- `inet_ntop` into a buffer, of which it is told the size: the text and its end must fit. Its result
  -- is not looked at, so `none` is the text of an array that was not set: undefined behaviour.
  unfoldable pub ntop_sized : List ℕ → ℕ → Option (List ℕ)
  ntop_sized bytes size = do
    text ← i.ntop6 bytes
    if ltb (length text) size then some text else none

  -- `Addr::to_string`.
  unfoldable pub text6 : SockAddr6 → Option (List ℕ)
  unfolding ntop_sized
  text6 a = ntop_sized a.sin6_addr 46

  -- `formatter<net::Addr>::format`.
  unfoldable pub format6 : SockAddr6 → Option (List ℕ)
  unfolding ntop_sized htons
  format6 a = do
    text ← ntop_sized (take 16 (memory_of a)) sizeof_sockaddr6
    some (text ++ b':' ∷ i.decimal (htons a.sin6_port))

module _ (os : Sockets) where
  -- `make_socket`: the constructor of `UdpSocket`.
  unfoldable pub make_udp : os.S → Result SockError Socket × os.S
  make_udp s =
      let (fd, s') = os.socket af_inet6 sock_dgram s in
      (if leb_ℤ (pos 0) fd then ok (record { fd = fd }) else err socket_failed, s')

  unfoldable pub bind_udp : Socket → Addr → os.S → Result SockError (Unit {0}) × os.S
  bind_udp sock addr s =
      let (code, s') = os.bind sock.fd addr s in
      (if code ==ℤ pos 0 then ok tt else err bind_failed, s')

  -- `~UdpSocket`.
  unfoldable pub close_udp : Socket → os.S → os.S
  close_udp sock s = if leb_ℤ (pos 0) sock.fd then os.close sock.fd s else s
