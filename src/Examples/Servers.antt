-- ===== src/Examples/Servers.antt =====
-- The UDP server's loop at small inputs.
use hnet.Prelude.{
  true, false, ℕ, ◌+◌, ◌≡◌, refl, List, [], ◌∷◌, some, length, replicate, length-replicate, arith,
}
use hnet.Prelude.Int.{pos}
use hnet.Prelude.Results.{ok, err}
use hnet.Ring2.Errors.{too_long_message}
use hnet.Ring2.Addr.{unspec}
use hnet.Ring2.Ring.{enqueue, count_starved}
use hnet.Ring2.Ring.Starvation.{submitted}
use hnet.Ring2.Poller.Setters.{Store, update}
use hnet.Ring2.Poller.Quiet.{still}
use hnet.Ring2.Submitter.Untimed.{waiting, done}
use hnet.Ring2.Messages.{Datagram, recv_sqe}
use hnet.Programs.Server.{buf_size, Round, udp_loop}
use hnet.Programs.Server.Turns.{Turn, answered, left_by, after_send, AllServed, no_more, and_then}
use hnet.Programs.Server.Connections.{tcp_serve}
use hnet.Programs.Server.Connections.Served.{tcp, tcp_serve_lem}
use hnet.Programs.Server.Rounds.{udp, udp_loop_lem, udp_loop_dies}
use hnet.Examples.Simulation.{sim, sleepers, flush, full_ring}
use hnet.Examples.Services.{blank_buf, blank_buf-length}

-- Two datagrams for the server, on a queue that is full at first.
abbrev message : List ℕ → Datagram
message bytes = record { payload = bytes; from = unspec }

abbrev turn : ℕ → List ℕ → Store → Turn
turn n bytes h =
    let h1 = update h 100 (waiting 6) in
    record {
      full_before_recv = n;
      full_before_send = 0;
      in_before = [];
      in_after = [];
      out_before = [];
      out_after = [];
      datagram = message bytes;
      sent = length bytes + length bytes;
      at_recv = h1;
      at_send =
          update (update h1 100 (record (waiting 6) { res = pos (length bytes) })) 100 (waiting 6);
    }

abbrev first_turn : Turn
first_turn = turn 1 (7 ∷ 8 ∷ 9 ∷ []) sleepers

abbrev second_turn : Turn
second_turn = turn 0 (5 ∷ []) (left_by (udp flush 2 6 100 3) first_turn)

abbrev served_round : List ℕ → Round
served_round bytes = record {
  arrivals = done 100 (pos (length bytes)) ∷ [];
  datagram = message bytes;
  departures = done 100 (pos (length bytes + length bytes)) ∷ [];
}

both_served : AllServed (udp flush 2 6 100 3) (first_turn ∷ second_turn ∷ []) full_ring sleepers
unfolding enqueue count_starved
both_served =
    and_then (omega arith, omega arith, omega arith, (refl, refl), still, refl, still)
      (and_then (omega arith, omega arith, omega arith, refl, still, refl, still) no_more)

udp_loop_example :
    (buf' : List ℕ) × (udp_loop sim flush 2 6 100 3
        (served_round (7 ∷ 8 ∷ 9 ∷ []) ∷ served_round (5 ∷ []) ∷ [])
        blank_buf
        full_ring
        sleepers
      ≡ some (
          ok (
            buf',
            after_send
                (udp flush 2 6 100 3)
                second_turn
                (after_send (udp flush 2 6 100 3) first_turn full_ring),
            left_by (udp flush 2 6 100 3) second_turn,
          )))
    × (length buf' ≡ buf_size)
udp_loop_example =
    udp_loop_lem flush 2 6 100 3 (first_turn ∷ second_turn ∷ []) blank_buf full_ring sleepers
      blank_buf-length both_served

-- Half of the buffer, not written out.
half_buf : List ℕ
half_buf = replicate 32_500 1

half_buf-length : length half_buf ≡ 32_500
unfolding half_buf
half_buf-length = length-replicate {A = ℕ} 32_500 1

udp_loop_dies_example :
    udp_loop sim flush 2 6 100 3
      (served_round (7 ∷ 8 ∷ 9 ∷ [])
        ∷ served_round (5 ∷ [])
        ∷ served_round half_buf
        ∷ served_round (4 ∷ [])
        ∷ [])
      blank_buf
      full_ring
      sleepers
    ≡ some (err too_long_message)
unfolding enqueue count_starved
udp_loop_dies_example =
    udp_loop_dies flush 2 6 100 3 (first_turn ∷ second_turn ∷ [])
      (turn 0 half_buf (left_by (udp flush 2 6 100 3) second_turn)) (served_round (4 ∷ []) ∷ [])
      blank_buf full_ring sleepers blank_buf-length both_served (omega (arith, half_buf-length))
      (omega (arith, half_buf-length)) (omega arith) refl still

-- A connection with two requests, and its end.
both_replied : AllServed (tcp flush 2 6 100 3) (first_turn ∷ second_turn ∷ []) full_ring sleepers
unfolding enqueue count_starved
both_replied =
    and_then
      (omega arith, omega arith, (omega arith, omega arith), (refl, refl), still, refl, still)
      (and_then (omega arith, omega arith, (omega arith, omega arith), refl, still, refl, still)
        no_more)

abbrev no_bytes : Round
no_bytes = record { arrivals = done 100 (pos 0) ∷ []; datagram = message []; departures = [] }

tcp_serve_example :
    (buf' : List ℕ) × (tcp_serve sim flush 2 6 100 3
        (served_round (7 ∷ 8 ∷ 9 ∷ [])
          ∷ served_round (5 ∷ [])
          ∷ no_bytes
          ∷ served_round (4 ∷ [])
          ∷ [])
        blank_buf
        full_ring
        sleepers
      ≡ some (
          ok (
            true,
            buf',
            (submitted flush 0
                (record (recv_sqe 3 buf_size false) { user_data = 100 })
                false
                (answered (tcp flush 2 6 100 3) (first_turn ∷ second_turn ∷ []) full_ring)).1,
            update
                (update (left_by (tcp flush 2 6 100 3) second_turn) 100 (waiting 6))
                100
                (record (waiting 6) { res = pos 0 }),
          )))
unfolding enqueue count_starved
tcp_serve_example =
    tcp_serve_lem flush 2 6 100 3 (first_turn ∷ second_turn ∷ []) 0 [] [] [] (pos 0) (message [])
      (served_round (4 ∷ []) ∷ []) blank_buf full_ring sleepers
      (update (left_by (tcp flush 2 6 100 3) second_turn) 100 (waiting 6)) blank_buf-length
      both_replied (omega arith) (λ e. ground arith) (omega arith) refl still
