-- ===== src/Examples/Submissions.antt =====
-- A fiber's calls on the simulated kernel.
use hnet.Prelude.{
  ℕ, ◌<◌, ◌≤◌, ◌^◌, ◌≡◌, ◌⊎◌, inr, refl, true, false, List, [], ◌∷◌, none, some, arith,
}
use hnet.Prelude.Int.{neg_ℕ, pos, ◌-ℤ◌}
use hnet.Prelude.Results.{ok, err, ◌>>=◌}
use hnet.Five.Time.{Duration}
use hnet.Ring2.Errors.{overflow, bad_accept, etime, ecanceled}
use hnet.Ring2.Kernel.{UsefulCqe}
use hnet.Ring2.Ring.{enqueue, count_starved}
use hnet.Ring2.Ring.Starvation.{submitted}
use hnet.Ring2.Addr.{Addr, unspec, default_addr}
use hnet.Ring2.Poller.Setters.{Store, update, dispatch}
use hnet.Ring2.Poller.Quiet.{Quiet, still, other}
use hnet.Ring2.Submitter.{timed_result, ring_submit, ring_submit_timed}
use hnet.Ring2.Submitter.Untimed.{waiting, done, ring_submit_lem}
use hnet.Ring2.Submitter.Timed.{IsEither, asleep, cqe, second, timeout_first, ring_submit_timed_lem}
use hnet.Ring2.Messages.{Datagram, recv_sqe, recvmsg_timed}
use hnet.Programs.Server.Accept.{Fcntl, accept_loop}
use hnet.Programs.Server.Accept.Rounds.{Turn, incoming, next_ring, accept_loop_lem}
use hnet.Programs.Client.{Client, Reply, client_step}
use hnet.Programs.Timeouts.{timed_out, client_step-recvmsg_timed}
use hnet.Examples.Simulation.{sim, ring_of, cqe_at, stay, sleepers}

-- Fiber 6 calls, with its setters at 100 and 200, while fibers 7 and 8 wait.
abbrev called : Store
called = update sleepers 100 (waiting 6)

abbrev interrupted : Store
interrupted = update called 1 (record { fiber = 7; res = pos 0; should_wake = none })

other_first : Quiet 6 (λ a. a ≡ 100) called (cqe_at 1 ∷ []) interrupted
unfolding dispatch update
other_first =
    other {h = called} {h' = interrupted} {c = cqe_at 1} (some 7) refl (λ e. omega (arith, e))
      (λ e. ground arith) still

ring_submit_example :
    ring_submit sim stay 1 6
      (cqe_at 1 ∷ done 100 (pos 5) ∷ [])
      100
      (recv_sqe 3 10 false)
      (ring_of [])
      sleepers
    ≡ some (
        ok (
          pos 5,
          (submitted stay 0
              (record (recv_sqe 3 10 false) { user_data = 100 })
              false
              (ring_of [])).1,
          update interrupted 100 (record (waiting 6) { res = pos 5 }),
        ))
ring_submit_example =
    ring_submit_lem stay 0 1 6 100 (cqe_at 1 ∷ []) [] (recv_sqe 3 10 false) (pos 5) (ring_of [])
      sleepers interrupted (λ e. ground arith) (omega arith) refl other_first

abbrev asleep_twice : Store
asleep_twice = asleep 6 100 200 sleepers

abbrev timer_done : Store
timer_done =
    update asleep_twice 200 (record { fiber = 6; res = ecanceled; should_wake = some (100, 200) })

abbrev second_ms : Duration
second_ms = record { nanos = pos 1_000_000 }

-- The timeout's completion comes first, then one of fiber 7, then the operation's.
abbrev arrivals : List UsefulCqe
arrivals = cqe 200 ecanceled ∷ cqe_at 1 ∷ cqe 100 (pos 5) ∷ []

abbrev timer_done_then_other : Store
timer_done_then_other = update timer_done 1 (record { fiber = 7; res = pos 0; should_wake = none })

not_mine : ¬ IsEither 100 200 1
not_mine e = ground arith

other_second : Quiet 6 (IsEither 100 200) timer_done (cqe_at 1 ∷ []) timer_done_then_other
unfolding dispatch update
other_second =
    other {h = timer_done} {h' = timer_done_then_other} {c = cqe_at 1} (some 7) refl not_mine
      (λ e. ground arith) still

ring_submit_timed_example :
    (h' : Store) × (ring_submit_timed sim stay 1 6 arrivals 100 200
        (recv_sqe 3 10 true)
        second_ms
        (ring_of [])
        sleepers
      ≡ some (
          timed_result (pos 5) ecanceled >>= λ res.
          ok (res, (second stay 0 0 (recv_sqe 3 10 true) 100 200 second_ms (ring_of [])).1, h')))
unfolding enqueue count_starved
ring_submit_timed_example =
    ring_submit_timed_lem stay 0 0 1 6 100 200 arrivals (recv_sqe 3 10 true) second_ms (pos 5)
      ecanceled (ring_of []) sleepers (λ e. omega (arith, e)) (λ e. ground arith)
      (λ e. ground arith) (omega arith) (omega arith) refl refl (inr (omega arith))
      (timeout_first {before = []} {between = cqe_at 1 ∷ []} {h1 = asleep_twice}
        {h2 = timer_done_then_other} [] still other_second)

abbrev peer : Addr
peer = default_addr unspec

abbrev datagram : Datagram
datagram = record { payload = 7 ∷ 8 ∷ 9 ∷ []; from = unspec }

-- The timer fires, and the receive is cancelled.
abbrev expiry : List UsefulCqe
expiry = cqe 200 etime ∷ cqe_at 1 ∷ cqe 100 ecanceled ∷ []

abbrev timer_fired : Store
timer_fired =
    update asleep_twice 200 (record { fiber = 6; res = etime; should_wake = some (100, 200) })

abbrev timer_fired_then_other : Store
timer_fired_then_other =
    update timer_fired 1 (record { fiber = 7; res = pos 0; should_wake = none })

other_meanwhile : Quiet 6 (IsEither 100 200) timer_fired (cqe_at 1 ∷ []) timer_fired_then_other
unfolding dispatch update
other_meanwhile =
    other {h = timer_fired} {h' = timer_fired_then_other} {c = cqe_at 1} (some 7) refl not_mine
      (λ e. ground arith) still

abbrev client : Client
client = record { start = record { nanos = pos 100 }; timings = []; dead_packets = 4 }

abbrev unanswered : Reply
unanswered = record {
  send_res = pos 1;
  result = timed_out unspec;
  now = record { nanos = pos 900 };
}

client_step-recvmsg_timed_example :
    (h' : Store) × (recvmsg_timed sim stay 1 6 expiry 100 200 3
        (0 ∷ 0 ∷ [])
        second_ms
        (record { payload = []; from = unspec })
        (ring_of [])
        sleepers
      ≡ some (
          ok (
            timed_out unspec,
            0 ∷ 0 ∷ [],
            (second stay 0 0 (recv_sqe 3 2 true) 100 200 second_ms (ring_of [])).1,
            h',
          )))
    × (((5 < 2 ^ 31)
          × (client_step (7 ∷ []) client unanswered
              ≡ ok (record { start = record { nanos = pos 900 }; timings = []; dead_packets = 5 })))
        ⊎ ((2 ^ 31 ≤ 5) × (client_step (7 ∷ []) client unanswered ≡ err overflow)))
unfolding enqueue count_starved
client_step-recvmsg_timed_example =
    client_step-recvmsg_timed stay 0 0 1 6 100 200 3 expiry second_ms (ring_of []) sleepers
      (0 ∷ 0 ∷ []) unspec (7 ∷ []) client (pos 1) (record { nanos = pos 900 })
      (λ e. omega (arith, e)) (omega arith) (omega arith) (omega arith) refl refl
      (inr (omega arith))
      (timeout_first {before = []} {between = cqe_at 1 ∷ []} {h1 = asleep_twice}
        {h2 = timer_fired_then_other} [] still other_meanwhile)

-- A system with the flags of one descriptor.
abbrev fcntl : Fcntl
fcntl = record { S = ℕ; getfl = λ fd s. (pos s, s); setfl = λ fd flags s. (pos 0, flags) }

-- A connection comes in behind another fiber's completion, and the next call fails.
abbrev accepting : Turn
accepting = record {
  full = 0;
  before = cqe_at 1 ∷ [];
  after = [];
  left = interrupted;
  peer = default_addr unspec;
  res = pos 5;
}

abbrev failing : Turn
failing = record {
  full = 0;
  before = [];
  after = [];
  left = update (update interrupted 100 (record (waiting 6) { res = pos 5 })) 100 (waiting 6);
  peer = default_addr unspec;
  res = neg_ℕ 24;
}

accept_loop_example :
    let r = ring_of [] in
    let t = accepting in
    let incoming_turn = incoming fcntl stay 1 6 100 3 in
    (accept_loop sim fcntl stay 1 6 100 3 (incoming_turn t ∷ []) [] 2 r sleepers
      ≡ some (
          ok (
            record { fd = pos 5; addr = default_addr unspec } ∷ [],
            2_050,
            next_ring fcntl stay 1 6 100 3 t r,
            update interrupted 100 (record (waiting 6) { res = pos 5 }),
          )))
    × (accept_loop sim fcntl stay 1 6 100 3
          (incoming_turn t ∷ incoming_turn failing ∷ [])
          []
          2
          r
          sleepers
        ≡ some (err (bad_accept (pos 24))))
unfolding enqueue count_starved ◌-ℤ◌
accept_loop_example =
    accept_loop_lem fcntl stay 1 6 100 3 (accepting ∷ []) failing [] [] 2 (ring_of []) sleepers
      (((λ e. ground arith), omega arith, refl, other_first), ground arith, tt)
      ((λ e. ground arith), omega arith, refl, still) (ground arith)
