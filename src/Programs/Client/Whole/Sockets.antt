-- ===== src/Programs/Client/Whole/Sockets.antt =====
-- src/infallible_udp.cc: the socket of a fiber, which is bound to a port of its own.
use hnet.Prelude.{ℕ, ◌+◌, ◌%◌, ◌^◌, ◌≡◌, ◌⊎◌, ◌∷◌}
use hnet.Prelude.Results.{Result, ok, err}
use hnet.Ring2.Addr.{v4, ip4_any}
use hnet.Ring2.Sock.{Error, Socket, Sockets, udp, close_socket, open_bound}
use hnet.Ring2.Sock.Lifetime.{IsTracked}
use hnet.Ring2.Sock.Bound.{BindKeeps, open_bound-udp}
use hnet.Programs.Settings.{UdpClientConfig}
use hnet.Programs.Report.{to_u64}

-- The socket of the fiber `thr`.
unfoldable pub client_socket :
    (os : Sockets) → UdpClientConfig → ℕ → os.S → Result Error Socket × os.S
client_socket os config thr s =
    open_bound os v4 udp (ip4_any ((to_u64 config.port + thr) % 2 ^ 16)) s

-- On a system that keeps to its manual, the socket of a fiber is the one descriptor that is opened,
-- and its destructor closes it; when `socket` or `bind` fails the fiber throws, and no descriptor
-- is left open.
pub client_socket_lem :
    {os : Sockets} (k : IsTracked os) (config : UdpClientConfig) (thr : ℕ) (s : os.S)
    → BindKeeps k
    → let (made, s') = client_socket os config thr s in
      ((sock : Socket) × (made ≡ ok sock)
        × (k.opened s' ≡ sock.fd ∷ k.opened s)
        × (k.opened (close_socket os sock s') ≡ k.opened s))
      ⊎ ((x : Error) × (made ≡ err x) × (k.opened s' ≡ k.opened s))
unfolding client_socket
client_socket_lem k config thr s at_bind =
    open_bound-udp k v4 (ip4_any ((to_u64 config.port + thr) % 2 ^ 16)) s at_bind
