-- ===== src/Examples/Starts.antt =====
-- The server of src/srv.cc from its start, on a kernel that completes each entry with three bytes,
-- what was put in last first.
use hnet.Prelude.{
  ℕ, false, suc, ◌≡◌, refl, List, [], ◌∷◌, ◌++◌, some, length, map, replicate, length-replicate,
  arith,
}
use hnet.Prelude.Int.{pos}
use hnet.Prelude.Results.{ok}
use hnet.Ring2.Kernel.{UsefulCqe, IoUring}
use hnet.Netring.Uring.{put_cookie, recv_cookie, send_cookie}
use hnet.Netring.Uring.Cookies.{poll_cookie_now}
use hnet.Netring.Request.{make_request}
use hnet.Netring.Executor.{monostate, request, World, Arrival, addr_of}
use hnet.Netring.Net.{make_udp, bind_udp}
use hnet.Programs.Settings.{old_server_defaults}
use hnet.Programs.Srv.{run_srv}
use hnet.Programs.Srv.Serving.{run_srv-replies}
use hnet.Examples.Tables.{table_os, full_of_three}
use hnet.Examples.Simulation.{Sim, sim, completions}

abbrev pub three_each : IoUring
three_each = record sim {
  submit = λ q. (
    pos (length q.waiting),
    record q {
      waiting = [];
      cq = map (λ (c : UsefulCqe). record c { res = pos 3 }) (completions q.waiting) ++ q.cq;
    },
  );
}

abbrev pub three_bytes : Arrival
three_bytes = record { payload = 7 ∷ 8 ∷ 9 ∷ []; from = record { sin6_port = 99; sin6_addr = [] } }

-- A buffer whose 500 bytes are not written out.
pub blank : List ℕ
blank = replicate 500 0

pub length-blank : length blank ≡ 500
unfolding blank
length-blank = length-replicate {A = ℕ} 500 0

abbrev pub next_number : ℕ → ℕ × ℕ
next_number n = (n, suc n)

abbrev pub ring_with : List UsefulCqe → Sim
ring_with cqes = record { depth = 8; waiting = []; cq = cqes }

abbrev pub came : ℕ → UsefulCqe
came cookie = record { user_data = cookie; res = pos 3 }

abbrev world : World three_each
world = record {
  ring = ring_with [];
  holders = λ a. monostate;
  buffers = λ b. blank;
  stacks = record { objects = []; factory = next_number; state = 20 };
  holder_pool = record { objects = []; factory = next_number; state = 50 };
  requests = record { objects = []; factory = λ n. (make_request n 500, suc n); state = 1 };
  freed = [];
}

posts : recv_cookie three_each 3 500 50 false (ring_with []) ≡ some (ring_with (came 50 ∷ []))
unfolding recv_cookie put_cookie
posts = refl

sends :
    send_cookie three_each 3
      (7 ∷ 8 ∷ 9 ∷ 7 ∷ 8 ∷ 9 ∷ [])
      (addr_of three_bytes.from)
      51
      (ring_with (came 50 ∷ []))
    ≡ some (ring_with (came 51 ∷ came 50 ∷ []))
unfolding send_cookie put_cookie
sends = refl

run_srv-replies_example :
    (w : World three_each) × ((run_srv table_os three_each next_number next_number next_number 1
        old_server_defaults
        (three_bytes ∷ [])
        world
        full_of_three).0
      ≡ ok w)
    × (w.ring ≡ ring_with (came 51 ∷ came 50 ∷ []))
    × (w.holders 50 ≡ request (make_request 2 500))
unfolding make_udp bind_udp
run_srv-replies_example =
    run_srv-replies table_os next_number next_number next_number world old_server_defaults
      full_of_three (record { fd = pos 3 }) 0 three_bytes (ring_with (came 50 ∷ [])) (ring_with [])
      (ring_with (came 50 ∷ [])) (ring_with (came 51 ∷ came 50 ∷ [])) refl refl posts
      (poll_cookie_now three_each (ring_with (came 50 ∷ [])) refl) posts sends (omega arith)
      length-blank length-blank (λ e. omega (arith, e)) (λ e. omega (arith, e))
