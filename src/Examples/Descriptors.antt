-- ===== src/Examples/Descriptors.antt =====
-- Sockets on a small table of descriptors, and the cookies and requests of netring.
use hnet.Prelude.{◌≡◌, refl, ◌⊎◌, List, [], ◌∷◌, ◌++◌, some}
use hnet.Prelude.Int.{ℤ, pos}
use hnet.Prelude.Results.{ok, err}
use hnet.Ring2.Kernel.{UsefulCqe}
use hnet.Ring2.Addr.{v6}
use hnet.Ring2.Sock.{tcp, Socket, open_socket, close_socket, socket_failed, setsockopt_failed}
use hnet.Programs.Settings.{ServerConfig, server_defaults}
use hnet.Programs.Server.Start.{tcp_text}
use hnet.Examples.Tables.{table_os, table_tracked, full_of_three}
use hnet.Ring2.Sock.Lifetime.{open_socket_lem}
use hnet.Netring.Uring.{poll_cookie}
use hnet.Netring.Uring.Cookies.{poll_cookie_head}
use hnet.Netring.Request.{make_request}
use hnet.Netring.Request.Moves.{lifetime, lifetime_lem}
use hnet.Examples.Simulation.{Sim, sim, sim_fifo, cqe_at}

open_socket_example :
    let (made, t) = open_socket table_os v6 tcp full_of_three in
    ((sock : Socket) × (made ≡ ok sock)
      × (t.opened ≡ sock.fd ∷ pos 2 ∷ pos 1 ∷ pos 0 ∷ [])
      × ((close_socket table_os sock t).opened ≡ pos 2 ∷ pos 1 ∷ pos 0 ∷ []))
    ⊎ ((made ≡ err socket_failed) × (t.opened ≡ pos 2 ∷ pos 1 ∷ pos 0 ∷ []))
    ⊎ ((fd : ℤ) × (made ≡ err setsockopt_failed) × (t.opened ≡ fd ∷ pos 2 ∷ pos 1 ∷ pos 0 ∷ []))
open_socket_example = open_socket_lem table_tracked v6 tcp full_of_three

-- A TCP server over IPv6.
abbrev serving : ServerConfig
serving = record server_defaults { mode = tcp_text; ipv = pos 6 }

abbrev two_done : Sim
two_done = record { depth = 8; waiting = []; cq = cqe_at 1 ∷ cqe_at 2 ∷ [] }

polled :
    (q' : Sim) × (new : List UsefulCqe) × (poll_cookie sim two_done ≡ ok (cqe_at 1, q'))
    × (q'.cq ≡ (cqe_at 2 ∷ []) ++ new)
polled = poll_cookie_head sim_fifo two_done (cqe_at 1) (cqe_at 2 ∷ []) refl

lifetime_example : lifetime 3 (make_request 4_096 500) ≡ some (4_096 ∷ [])
lifetime_example = lifetime_lem 3 4_096 500
