-- ===== src/Ring2/Sock/Bound.antt =====
-- Which descriptors are left open where a socket is made and bound.
use hnet.Prelude.{◌≡◌, ◌≢◌, refl, ap, ◌∙◌, ◌⊎◌, inl, inr, List, length, ◌∷◌, Bool-cases, arith}
use hnet.Prelude.Int.{ℤ, leb_ℤ, pos}
use hnet.Prelude.Results.{ok, err}
use hnet.Ring2.Addr.{Addr, IpFamily}
use hnet.Ring2.Sock.{
  Error, socket_failed, setsockopt_failed, bind_failed, Proto, udp, Socket, Sockets, set_options,
  open_socket, bind_socket, close_socket, open_bound,
}
use hnet.Ring2.Sock.Lifetime.{IsTracked, open_socket_lem}

-- `bind` opens and closes nothing.
abbrev pub BindKeeps : {os : Sockets} → IsTracked os → Type 0
BindKeeps {os} k = (fd : ℤ) (a : Addr) (s : os.S) → k.opened (os.bind fd a s).1 ≡ k.opened s

-- A socket that its destructor closes in one state is closed by it in another.
pub closes :
    {os : Sockets} (k : IsTracked os) (sock : Socket) (fds : List ℤ) (s s' : os.S)
    → k.opened s ≡ sock.fd ∷ fds
    → k.opened (close_socket os sock s) ≡ fds
    → k.opened s' ≡ sock.fd ∷ fds
    → k.opened (close_socket os sock s') ≡ fds
unfolding close_socket
closes {os} k sock fds s s' left closed left' = elim (Bool-cases (leb_ℤ (pos 0) sock.fd)) [
  | inl valid ↦ rw (valid) (k.at_close sock.fd fds s' left')
  | inr negative ↦
      let kept : k.opened s ≡ fds = rw (negative) at closed in
      absurd (omega (arith, ap length left, ap length kept))
]

bind_socket-cases :
    (os : Sockets) (sock : Socket) (a : Addr) (s : os.S)
    → ((bind_socket os sock a s).0 ≡ ok tt) ⊎ ((bind_socket os sock a s).0 ≡ err bind_failed)
unfolding bind_socket
bind_socket-cases os sock a s = ground arith

bind_socket-opened :
    {os : Sockets} (k : IsTracked os) (sock : Socket) (a : Addr) (s : os.S)
    → BindKeeps k
    → k.opened (bind_socket os sock a s).1 ≡ k.opened s
unfolding bind_socket
bind_socket-opened k sock a s at_bind = at_bind sock.fd a s

-- A UDP socket has no options that could fail.
no_options :
    (os : Sockets) (family : IpFamily) (s : os.S)
    → (open_socket os family udp s).0 ≢ err setsockopt_failed
unfolding open_socket set_options
no_options os family s failed = ground arith

-- A socket that is made and bound is the one descriptor that is opened, and its destructor closes it.
-- When `socket` or `bind` fails, none is left open. When an option fails, one is.
pub open_bound_lem :
    {os : Sockets} (k : IsTracked os) (family : IpFamily) (proto : Proto) (addr : Addr) (s : os.S)
    → BindKeeps k
    → let (made, s') = open_bound os family proto addr s in
      ((sock : Socket) × (made ≡ ok sock)
        × (k.opened s' ≡ sock.fd ∷ k.opened s)
        × (k.opened (close_socket os sock s') ≡ k.opened s))
      ⊎ ((x : Error) × (made ≡ err x) × (k.opened s' ≡ k.opened s))
      ⊎ ((fd : ℤ) × ((open_socket os family proto s).0 ≡ err setsockopt_failed)
          × (made ≡ err setsockopt_failed)
          × (k.opened s' ≡ fd ∷ k.opened s))
unfolding open_bound
open_bound_lem {os} k family proto addr s at_bind = elim (open_socket_lem k family proto s) [
  | inl (sock, made, left, closed) ↦
      let s' = (open_socket os family proto s).1 in
      let left' = bind_socket-opened k sock addr s' at_bind ∙ left in
      let closed' =
        closes k sock (k.opened s) s' (bind_socket os sock addr s').1 left closed left' in
      elim (bind_socket-cases os sock addr s') [
        | inl bound ↦
            rw (made, open_bound) (rw (bound, open_bound) (inl (sock, refl, left', closed')))
        | inr failed ↦
            rw (made, open_bound) (rw (failed, open_bound) (inr (inl (bind_failed, refl, closed'))))
      ]
  | inr (inl (made, left)) ↦ rw (made, open_bound) (inr (inl (socket_failed, refl, left)))
  | inr (inr (fd, made, left)) ↦ rw (made, open_bound) (inr (inr (fd, refl, refl, left)))
]

-- A UDP socket leaves none open when it fails.
pub open_bound-udp :
    {os : Sockets} (k : IsTracked os) (family : IpFamily) (addr : Addr) (s : os.S)
    → BindKeeps k
    → let (made, s') = open_bound os family udp addr s in
      ((sock : Socket) × (made ≡ ok sock)
        × (k.opened s' ≡ sock.fd ∷ k.opened s)
        × (k.opened (close_socket os sock s') ≡ k.opened s))
      ⊎ ((x : Error) × (made ≡ err x) × (k.opened s' ≡ k.opened s))
open_bound-udp {os} k family addr s at_bind = elim (open_bound_lem k family udp addr s at_bind) [
  | inl made ↦ inl made
  | inr (inl failed) ↦ inr failed
  | inr (inr (fd, option, made, left)) ↦ absurd (no_options os family s option)
]
