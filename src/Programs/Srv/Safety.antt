-- ===== src/Programs/Srv/Safety.antt =====
-- The server of src/srv.cc does not panic.
use hnet.Prelude.{ℕ, suc, ◌%◌, ◌^◌, ◌≡◌, ◌≢◌, subst, List, Option-cases, inl, inr, false}
use hnet.Prelude.Results.{Result, err, Ends, Result-cases}
use hnet.Ring2.Kernel.{IoUring}
use hnet.Ring2.Sock.{Sockets}
use hnet.Netring.Uring.{recv_cookie}
use hnet.Netring.Uring.Tracked.{IsTracked}
use hnet.Netring.Net.{any6, make_udp, bind_udp}
use hnet.Netring.Request.{make_request}
use hnet.Netring.Executor.{Fault, unreachable, no_reply, World, Arrival, start_loop}
use hnet.Netring.Executor.Start.{first, started, start_loop_lem, start_loop_full}
use hnet.Netring.Executor.Owners.{Allocators}
use hnet.Netring.Executor.Owners.Waits.{IsExpected}
use hnet.Netring.Executor.Owners.Begins.{IsFresh}
use hnet.Netring.Executor.Owners.Completions.{IsServing, dispatch_loop-IsServing}
use hnet.Netring.Executor.Owners.Panics.{started-IsServing}
use hnet.Prelude.Int.{pos_part}
use hnet.Programs.Report.{to_u64}
use hnet.Programs.Settings.{OldServerConfig}
use hnet.Programs.Srv.{SrvStopped, no_socket, fault, serve, run_srv}

-- The ends of the server other than the panic of its loop and the end of a handler that has no open
-- send.
abbrev IsExpectedStop : SrvStopped → Type 0
IsExpectedStop (no_socket e) = Unit {0}
IsExpectedStop (fault x) = IsExpected x

Ends-stop :
    {A : Type 0} (P : A → Type 0) (r : Result SrvStopped A) (x : Fault)
    → Ends P IsExpectedStop r
    → ¬ IsExpected x
    → r ≢ err (fault x)
Ends-stop P r x h bad same = bad (subst (Ends P IsExpectedStop) same h)

module _ (os : Sockets) {u : IoUring} (k : IsTracked u) (al : Allocators) (fuel : ℕ)
    (arrivals : List Arrival) (w : World u) (fresh : IsFresh al w)
    (nothing : (b : ℕ) → k.open_for w.ring b ≡ 0) where
  serve-IsExpected :
      (fd : ℕ)
      → Ends
          (IsServing k fd al)
          IsExpected
          (serve os u al.alloc_stack al.new_object al.malloc (suc fuel) fd arrivals w)
  unfolding serve start_loop make_request
  serve-IsExpected fd =
      let out =
        recv_cookie u fd 500 (first fd al.alloc_stack al.new_object al.malloc w) false w.ring in
      elim (Option-cases out) [
        | inr (ring, posted) ↦
            rw (start_loop_lem fd al.alloc_stack al.new_object al.malloc w fuel ring posted, serve)
              (dispatch_loop-IsServing k fd al arrivals
                (started fd al.alloc_stack al.new_object al.malloc w ring)
                (started-IsServing k al fd w ring fresh nothing posted))
        | inl full ↦
            rw (start_loop_full fd al.alloc_stack al.new_object al.malloc w fuel full, serve) tt
      ]

  run_srv-IsExpected :
      (config : OldServerConfig) (s : os.S)
      → Ends
          (λ w'. Unit {0})
          IsExpectedStop
          (run_srv os u al.alloc_stack al.new_object al.malloc (suc fuel) config arrivals w s).0
  unfolding run_srv
  run_srv-IsExpected config s = elim (Result-cases (make_udp os s).0) [
    | inr (e, failed) ↦ rw (failed, run_srv) tt
    | inl (sock, made) ↦
        let fd = pos_part sock.fd in
        let bind = bind_udp os sock (any6 (to_u64 config.port % 2 ^ 16)) (make_udp os s).1 in
        let served = serve os u al.alloc_stack al.new_object al.malloc (suc fuel) fd arrivals w in
        elim (Result-cases bind.0) [
          | inr (e, failed) ↦ rw (made, run_srv) (rw (failed, run_srv) tt)
          | inl (done, bound) ↦ elim (Result-cases served) [
            | inl (w', ran) ↦ rw (made, run_srv) (rw (bound, run_srv) (rw (ran, run_srv) tt))
            | inr (x, ended) ↦
                rw (made, run_srv)
                  (rw (bound, run_srv)
                    (rw (ended, run_srv)
                      (subst (Ends (IsServing k fd al) IsExpected) ended (serve-IsExpected fd))))
          ]
        ]
  ]

  -- The kernel completes each entry once, with its cookie, and has none at first, and nothing was
  -- allocated. Whatever the system calls return and whatever comes in, `Run` never comes to the branch
  -- that panics, and resumes no handler that has no open send.
  pub run_srv-safe :
      (config : OldServerConfig) (s : os.S)
      → let stopped =
          (run_srv os u al.alloc_stack al.new_object al.malloc (suc fuel) config arrivals w s).0 in
        (stopped ≢ err (fault unreachable)) × (stopped ≢ err (fault no_reply))
  run_srv-safe config s =
      let stopped =
        (run_srv os u al.alloc_stack al.new_object al.malloc (suc fuel) config arrivals w s).0 in
      (
        Ends-stop _ stopped unreachable (run_srv-IsExpected config s) (λ e. e),
        Ends-stop _ stopped no_reply (run_srv-IsExpected config s) (λ e. e),
      )
