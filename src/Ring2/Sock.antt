-- ===== src/Ring2/Sock.antt =====
-- ring2/ring2/sock.h and sock.cc: a socket owns its file descriptor. The system's calls are those of
-- the C library: `Sockets` has them, on a state of the system's own.
pub mod Lifetime
pub mod Bound
use hnet.Prelude.{ℕ, Bool, true, false, if◌then◌else◌}
use hnet.Prelude.Int.{ℤ, pos, neg_ℕ, ◌==ℤ◌, leb_ℤ}
use hnet.Prelude.Results.{Result, ok, err}
use hnet.Ring2.Addr.{Addr, IpFamily, v4, v6}

pub data Proto : Type 0 where
  tcp udp : Proto

-- The arguments of `socket` and `setsockopt`, by name.
pub data Domain : Type 0 where
  af_inet af_inet6 : Domain

pub data SocketType : Type 0 where
  sock_stream sock_dgram : SocketType

pub data TcpOption : Type 0 where
  tcp_fastopen tcp_nodelay : TcpOption

pub record Sockets : Type 1 where
  pub S : Type 0
  pub socket : Domain → SocketType → S → ℤ × S
  pub setsockopt : ℤ → TcpOption → ℕ → S → ℤ × S
  pub bind : ℤ → Addr → S → ℤ × S
  pub listen : ℤ → ℤ → S → ℤ × S
  pub close : ℤ → S → S

pub data Error : Type 0 where
  socket_failed setsockopt_failed bind_failed listen_failed : Error

pub record Socket : Type 0 where
  pub fd : ℤ

-- `Socket(int fd)`.
abbrev pub of_fd : ℤ → Socket
of_fd fd = record { fd = fd }

unfoldable pub domain_of : IpFamily → Domain
domain_of v4 = af_inet
domain_of v6 = af_inet6

unfoldable pub type_of : Proto → SocketType
type_of tcp = sock_stream
type_of udp = sock_dgram

module _ (os : Sockets) where
  -- The two options of a TCP socket: the first failure throws.
  unfoldable pub set_options : Proto → ℤ → os.S → Result Error Socket × os.S
  set_options udp fd s = (ok (of_fd fd), s)
  set_options tcp fd s =
      let (fast, s1) = os.setsockopt fd tcp_fastopen 1 s in
      let (nodelay, s2) = os.setsockopt fd tcp_nodelay 1 s1 in
      if fast ==ℤ pos 0
      then (if nodelay ==ℤ pos 0 then (ok (of_fd fd), s2) else (err setsockopt_failed, s2))
      else (err setsockopt_failed, s1)

  -- `Socket(family, proto)`. An exception leaves the constructor, so no destructor runs.
  unfoldable pub open_socket : IpFamily → Proto → os.S → Result Error Socket × os.S
  unfolding domain_of type_of set_options
  open_socket family proto s =
      let (fd, s') = os.socket (domain_of family) (type_of proto) s in
      if leb_ℤ (pos 0) fd then set_options proto fd s' else (err socket_failed, s')

  -- `~Socket`.
  unfoldable pub close_socket : Socket → os.S → os.S
  close_socket sock s = if leb_ℤ (pos 0) sock.fd then os.close sock.fd s else s

  unfoldable pub bind_socket : Socket → Addr → os.S → Result Error (Unit {0}) × os.S
  bind_socket sock addr s =
      let (code, s') = os.bind sock.fd addr s in
      (if code ==ℤ pos 0 then ok tt else err bind_failed, s')

  unfoldable pub listen_socket : Socket → ℤ → os.S → Result Error (Unit {0}) × os.S
  listen_socket sock n s =
      let (code, s') = os.listen sock.fd n s in
      (if code ==ℤ neg_ℕ 1 then err listen_failed else ok tt, s')

  -- A socket that is made and bound. When `bind` throws, the socket is destroyed.
  unfoldable pub open_bound : IpFamily → Proto → Addr → os.S → Result Error Socket × os.S
  open_bound family proto addr s =
      let (made, s') = open_socket family proto s in
      elim made [
        | err x ↦ (err x, s')
        | ok sock ↦
            let (bound, s'') = bind_socket sock addr s' in
            elim bound [ ok u ↦ (ok sock, s'') | err x ↦ (err x, close_socket sock s'') ]
      ]
