-- ===== src/Programs/Srv/Serving.antt =====
-- The server of src/srv.cc serves, or leaves no descriptor open.
use hnet.Prelude.{ℕ, suc, ◌≤◌, ◌≡◌, ◌≢◌, refl, [], ◌∷◌, ◌++◌, some, false, length, ◌%◌, ◌^◌}
use hnet.Prelude.Int.{pos, pos_part}
use hnet.Prelude.Results.{ok}
use hnet.Ring2.Kernel.{IoUring}
use hnet.Ring2.Sock.{Sockets, Socket}
use hnet.Netring.Uring.{poll_cookie, recv_cookie, send_cookie}
use hnet.Netring.Net.{any6, make_udp, bind_udp}
use hnet.Netring.Request.{make_request}
use hnet.Netring.Executor.{request, World, Arrival, addr_of, dispatch_loop}
use hnet.Netring.Executor.Start.{first, second, buffer0, buffer1, buffer2, loop_step-start_loop}
use hnet.Programs.Settings.{OldServerConfig}
use hnet.Programs.Report.{to_u64}
use hnet.Programs.Srv.{serve, run_srv}

module _ (os : Sockets) {u : IoUring} (alloc_stack new_object malloc : ℕ → ℕ × ℕ) (w : World u)
    (config : OldServerConfig) (s : os.S) (sock : Socket) (fuel : ℕ) (a : Arrival)
    (q0 q1 q2 q3 : u.Q) where
  abbrev fd : ℕ
  fd = pos_part sock.fd

  -- Where the first request and the handler of its datagram are held, and the buffers.
  abbrev at : ℕ
  at = first fd alloc_stack new_object malloc w

  abbrev new : ℕ
  new = second fd alloc_stack new_object malloc w

  abbrev base0 : ℕ
  base0 = buffer0 fd alloc_stack new_object malloc w

  abbrev base1 : ℕ
  base1 = buffer1 fd alloc_stack new_object malloc w

  abbrev base2 : ℕ
  base2 = buffer2 fd alloc_stack new_object malloc w

  -- The socket is made and bound. The three addresses that `malloc` returns and the two that `new`
  -- returns differ where they have to, and the buffers have their 500 bytes. The first datagram takes
  -- half of one at most. Then the server, from its start, posts its first receive, takes the datagram
  -- with the next receive posted, and hands the kernel one send: the datagram's bytes twice over, to
  -- its sender.
  pub run_srv-replies :
      (make_udp os s).0 ≡ ok sock
      → (bind_udp os sock (any6 (to_u64 config.port % 2 ^ 16)) (make_udp os s).1).0 ≡ ok tt
      → recv_cookie u fd 500 at false w.ring ≡ some q0
      → poll_cookie u q0 ≡ ok (record { user_data = at; res = pos (length a.payload) }, q1)
      → recv_cookie u fd 500 at false q1 ≡ some q2
      → send_cookie u fd (a.payload ++ a.payload) (addr_of a.from) new q2 ≡ some q3
      → length a.payload ≤ 250
      → length (w.buffers base0) ≡ 500
      → length (w.buffers base2) ≡ 500
      → base2 ≢ base0
      → new ≢ at
      → (w2 : World u) × ((run_srv os u alloc_stack new_object malloc
            (suc fuel)
            config
            (a ∷ [])
            w
            s).0
          ≡ ok w2)
        × (w2.ring ≡ q3)
        × (w2.holders at ≡ request (make_request base1 500))
  unfolding run_srv serve dispatch_loop
  run_srv-replies made bound posted polled again sent short long0 long2 apart unused =
      let (w1, w2, started, ran, ring, held) =
        loop_step-start_loop fd alloc_stack new_object malloc w fuel a q0 q1 q2 q3 posted polled
          again sent short long0 long2 apart unused in
      let served : serve os u alloc_stack new_object malloc (suc fuel) fd (a ∷ []) w ≡ ok w2 =
        rw (started, serve) (rw (ran, dispatch_loop) refl) in
      (w2, rw (made, run_srv) (rw (bound, run_srv) (rw (served, run_srv) refl)), ring, held)
