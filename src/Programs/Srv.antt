-- ===== src/Programs/Srv.antt =====
-- src/srv.cc, `ServerProgram::Run`: the socket, and the dispatch loop of netring with its handler.
pub mod Serving
pub mod Safety
use hnet.Prelude.{ℕ, ◌%◌, ◌^◌, List}
use hnet.Prelude.Int.{pos_part}
use hnet.Prelude.Results.{Result, ok, err}
use hnet.Ring2.Kernel.{IoUring}
use hnet.Ring2.Sock.{Sockets, Error}
use hnet.Netring.Net.{any6, make_udp, bind_udp, close_udp}
use hnet.Netring.Executor.{Fault, World, Arrival, start_loop, dispatch_loop}
use hnet.Programs.Settings.{OldServerConfig}
use hnet.Programs.Report.{to_u64}

pub data SrvStopped : Type 0 where
  no_socket : Error → SrvStopped
  fault : Fault → SrvStopped

module _ (os : Sockets) (u : IoUring) (alloc_stack new_object malloc : ℕ → ℕ × ℕ) (fuel : ℕ) where
  -- What follows once the socket is bound, over the first rounds of the loop.
  unfoldable pub serve : ℕ → List Arrival → World u → Result Fault (World u)
  serve fd arrivals w = elim (start_loop u fd alloc_stack new_object malloc fuel w) [
    | err x ↦ err x
    | ok w' ↦ dispatch_loop u fd arrivals w'
  ]

  -- The socket is closed where an exception passes; the loop does not end otherwise.
  unfoldable pub run_srv :
      OldServerConfig → List Arrival → World u → os.S → Result SrvStopped (World u) × os.S
  run_srv config arrivals w s =
      let (made, s') = make_udp os s in
      elim made [
        | err x ↦ (err (no_socket x), s')
        | ok sock ↦
            let (bound, s'') = bind_udp os sock (any6 (to_u64 config.port % 2 ^ 16)) s' in
            elim bound [
              | err x ↦ (err (no_socket x), close_udp os sock s'')
              | ok done ↦ elim (serve (pos_part sock.fd) arrivals w) [
                | err x ↦ (err (fault x), close_udp os sock s'')
                | ok w' ↦ (ok w', s'')
              ]
            ]
      ]
