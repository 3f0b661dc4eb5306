-- ===== src/Examples/Handlers.antt =====
-- The dispatch loop of netring on a kernel that completes what was put in last first.
use hnet.Prelude.{ℕ, false, suc, ◌≡◌, refl, [], ◌∷◌, ◌++◌, some, length, replicate, arith}
use hnet.Prelude.Int.{pos}
use hnet.Prelude.Results.{ok, err}
use hnet.Five.ObjectPool.{get}
use hnet.Ring2.Kernel.{UsefulCqe, IoUring}
use hnet.Netring.Uring.{put_cookie, recv_cookie, send_cookie}
use hnet.Netring.Uring.Cookies.{poll_cookie_now}
use hnet.Netring.Request.{SockAddr6, make_request}
use hnet.Netring.Executor.{
  monostate, request, World, Arrival, addr_of, store, dispatch_loop, loop_step, out_of_bounds,
}
use hnet.Netring.Executor.Replies.{IsReceived, loop_step_overflows}
use hnet.Netring.Executor.Recycling.{dispatch_loop_shrinks}
use hnet.Examples.Simulation.{Sim, sim, completions, cqe_at}

abbrev lifo : IoUring
lifo = record sim {
  submit =
      λ q. (pos (length q.waiting), record q { waiting = []; cq = completions q.waiting ++ q.cq });
}

abbrev sender : SockAddr6
sender = record { sin6_port = 99; sin6_addr = [] }

abbrev three_bytes : Arrival
three_bytes = record { payload = 7 ∷ 8 ∷ 9 ∷ []; from = sender }

abbrev five_bytes : Arrival
five_bytes = record { payload = 1 ∷ 2 ∷ 3 ∷ 4 ∷ 5 ∷ []; from = sender }

abbrev received : ℕ → UsefulCqe
received n = record { user_data = 50; res = pos n }

-- A datagram of `n` bytes is there for the request at 50, which has the buffer 1; requests with the
-- buffers 2 and 3 are spare. All buffers have 8 bytes.
abbrev world : ℕ → World lifo
world n = record {
  ring = record { depth = 8; waiting = []; cq = received n ∷ [] };
  holders = store 50 (request (make_request 1 8)) (λ a. monostate);
  buffers = λ b. replicate 8 0;
  stacks = record { objects = []; factory = λ n. (n, suc n); state = 20 };
  holder_pool = record { objects = 51 ∷ []; factory = λ n. (n, suc n); state = 52 };
  requests = record {
    objects = make_request 2 8 ∷ make_request 3 8 ∷ [];
    factory = λ n. (make_request n 8, suc n);
    state = 4;
  };
  freed = [];
}

abbrev taken : Sim
taken = record { depth = 8; waiting = []; cq = [] }

abbrev posted : Sim
posted = record taken { cq = cqe_at 50 ∷ [] }

abbrev sent : Sim
sent = record taken { cq = cqe_at 51 ∷ cqe_at 50 ∷ [] }

short_received : IsReceived 4 three_bytes (world 3) (received 3) taken (make_request 1 8) 1 3
unfolding get make_request store
short_received = record {
  polled = poll_cookie_now lifo (world 3).ring refl;
  held = refl;
  size = refl;
  base = refl;
  fits = omega arith;
  allocated = omega arith;
  reply_base = refl;
  apart = λ e. omega (arith, e);
  unused = λ e. omega (arith, e);
}

long_received : IsReceived 4 five_bytes (world 5) (received 5) taken (make_request 1 8) 1 3
unfolding get make_request store
long_received = record {
  polled = poll_cookie_now lifo (world 5).ring refl;
  held = refl;
  size = refl;
  base = refl;
  fits = omega arith;
  allocated = omega arith;
  reply_base = refl;
  apart = λ e. omega (arith, e);
  unused = λ e. omega (arith, e);
}

posts : recv_cookie lifo 4 8 50 false taken ≡ some posted
unfolding recv_cookie put_cookie
posts = refl

sends : send_cookie lifo 4 (7 ∷ 8 ∷ 9 ∷ 7 ∷ 8 ∷ 9 ∷ []) (addr_of sender) 51 posted ≡ some sent
unfolding send_cookie put_cookie
sends = refl

loop_step_overflows_example : loop_step lifo 4 five_bytes (world 5) ≡ err out_of_bounds
unfolding get make_request
loop_step_overflows_example =
    loop_step_overflows 4 five_bytes (world 5) (received 5) taken posted (make_request 1 8) 1 3
      long_received (omega arith) posts

dispatch_loop_shrinks_example :
    (w' : World lifo) × (dispatch_loop lifo 4 (three_bytes ∷ three_bytes ∷ []) (world 3) ≡ ok w')
    × ((get w'.requests).0.iov_len ≡ 6)
    × ((get w'.requests).0.iov_base ≡ some 3)
unfolding get make_request
dispatch_loop_shrinks_example =
    dispatch_loop_shrinks 4 three_bytes three_bytes (world 3) (received 3) (cqe_at 51) taken posted
      sent posted (make_request 1 8) 1 3 short_received (omega arith) posts sends
      (poll_cookie_now lifo sent refl) refl
