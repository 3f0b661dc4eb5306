-- ===== src/Netring/Executor/Start.antt =====
-- src/srv.cc from its start: the pools, the first receive, and the first datagram.
use hnet.Prelude.{ℕ, suc, ◌≤◌, ◌≡◌, ◌≢◌, refl, [], ◌++◌, none, some, false, length, arith}
use hnet.Prelude.Int.{pos}
use hnet.Prelude.Results.{ok, err}
use hnet.Five.ObjectPool.{get}
use hnet.Five.ObjectPool.Reuse.{make-empty}
use hnet.Ring2.Kernel.{IoUring}
use hnet.Netring.Uring.{poll_cookie, recv_cookie, send_cookie}
use hnet.Netring.Request.{make_request}
use hnet.Netring.Executor.{
  null_sqe, request, World, Arrival, store, addr_of, loop_step, new_request, start_loop,
}
use hnet.Netring.Executor.Copies.{store_self}
use hnet.Netring.Executor.Replies.{IsReceived, loop_step_replies}

module _ {u : IoUring} (fd : ℕ) (alloc_stack new_object malloc : ℕ → ℕ × ℕ) (w : World u) where
  -- The object that holds the first request, and the buffers of that request and of the two that the
  -- first datagram takes.
  abbrev pub first : ℕ
  first = (new_object w.holder_pool.state).0

  abbrev pub second : ℕ
  second = (new_object (new_object w.holder_pool.state).1).0

  abbrev pub buffer0 : ℕ
  buffer0 = (malloc w.requests.state).0

  abbrev pub buffer1 : ℕ
  buffer1 = (malloc (malloc w.requests.state).1).0

  abbrev pub buffer2 : ℕ
  buffer2 = (malloc (malloc (malloc w.requests.state).1).1).0

  abbrev pub started : u.Q → World u
  started ring = record w {
    ring = ring;
    stacks = record { objects = []; factory = alloc_stack; state = w.stacks.state };
    holder_pool = record {
      objects = [];
      factory = new_object;
      state = (new_object w.holder_pool.state).1;
    };
    requests = record {
      objects = [];
      factory = new_request malloc;
      state = (malloc w.requests.state).1;
    };
    holders = store first (request (make_request buffer0 500)) w.holders;
  }

  pub start_loop_lem :
      (fuel : ℕ) (ring : u.Q)
      → recv_cookie u fd 500 first false w.ring ≡ some ring
      → start_loop u fd alloc_stack new_object malloc (suc fuel) w ≡ ok (started ring)
  unfolding start_loop make_request
  start_loop_lem fuel ring posted =
      rw (make-empty fuel 10 alloc_stack w.stacks.state (omega arith), start_loop)
        (rw (make-empty fuel 10 new_object w.holder_pool.state (omega arith), start_loop)
          (rw (make-empty fuel 10 (new_request malloc) w.requests.state (omega arith), start_loop)
            (rw (posted, start_loop) refl)))

  -- A full queue is an end at once.
  pub start_loop_full :
      (fuel : ℕ)
      → recv_cookie u fd 500 first false w.ring ≡ none
      → start_loop u fd alloc_stack new_object malloc (suc fuel) w ≡ err null_sqe
  unfolding start_loop make_request
  start_loop_full fuel full =
      rw (make-empty fuel 10 alloc_stack w.stacks.state (omega arith), start_loop)
        (rw (make-empty fuel 10 new_object w.holder_pool.state (omega arith), start_loop)
          (rw (make-empty fuel 10 (new_request malloc) w.requests.state (omega arith), start_loop)
            (rw (full, start_loop) refl)))

  -- The three addresses that `malloc` returns and the two that `new` returns differ where they have
  -- to, and the buffers have their 500 bytes. The first datagram takes half of one at most. Then the
  -- server, from its start, posts its first receive, takes the datagram with the next receive
  -- posted, and hands the kernel one send: the datagram's bytes twice over, to its sender.
  pub loop_step-start_loop :
      (fuel : ℕ) (a : Arrival) (q0 q1 q2 q3 : u.Q)
      → recv_cookie u fd 500 first false w.ring ≡ some q0
      → poll_cookie u q0 ≡ ok (record { user_data = first; res = pos (length a.payload) }, q1)
      → recv_cookie u fd 500 first false q1 ≡ some q2
      → send_cookie u fd (a.payload ++ a.payload) (addr_of a.from) second q2 ≡ some q3
      → length a.payload ≤ 250
      → length (w.buffers buffer0) ≡ 500
      → length (w.buffers buffer2) ≡ 500
      → buffer2 ≢ buffer0
      → second ≢ first
      → (w1 w2 : World u) × (start_loop u fd alloc_stack new_object malloc (suc fuel) w ≡ ok w1)
        × (loop_step u fd a w1 ≡ ok w2)
        × (w2.ring ≡ q3)
        × (w2.holders first ≡ request (make_request buffer1 500))
  unfolding get make_request
  loop_step-start_loop fuel a q0 q1 q2 q3 posted polled again sent short long0 long2 apart unused =
      let received : IsReceived fd a (started q0)
          (record { user_data = first; res = pos (length a.payload) }) q1 (make_request buffer0 500)
          buffer0 buffer2 =
        record {
          polled = polled;
          held = store_self first (request (make_request buffer0 500)) w.holders;
          size = refl;
          base = refl;
          fits = omega (arith, short);
          allocated = omega (arith, long0);
          reply_base = refl;
          apart = apart;
          unused = unused;
        } in
      let (w2, ran, ring, posted', waits, rest) =
        loop_step_replies fd a (started q0)
          (record { user_data = first; res = pos (length a.payload) }) q1 q2 q3
          (make_request buffer0 500) buffer0 buffer2 received (omega (arith, short, long2)) again
          sent in
      (started q0, w2, start_loop_lem fuel q0 posted, ran, ring, posted')
