-- ===== src/Examples/Fibers.antt =====
-- Two fibers of the client that take turns.
use hnet.Prelude.{arith, ◌⊎◌, ◌^◌, ◌≤◌, ℕ, ◌+◌, ◌≡◌, refl, List, [], ◌∷◌}
use hnet.Prelude.Int.{pos, ◌-ℤ◌}
use hnet.Prelude.Results.{ok, err}
use hnet.Five.Time.{Instant, Duration, sub_instants}
use hnet.Ring2.Errors.{overflow, bad_response, esqe_timeout}
use hnet.Ring2.Addr.{unspec, default_addr}
use hnet.Programs.Client.{Client, Reply, client_step, client_loop}
use hnet.Programs.Client.Fibers.{Fibers, expected_of, set_start, run_fibers}
use hnet.Programs.Client.Fibers.Interleaving.{done, replies_to, IsShare, run_fibers-client_loop}
use hnet.Programs.Client.Fibers.Failures.{lost_in, run_fibers-fails}

-- The text is "a", and a number is its one digit.
abbrev expected : ℕ → List ℕ
expected = expected_of (λ n. (48 + n) ∷ []) (97 ∷ [])

abbrev at : ℕ → Instant
at n = record { nanos = pos n }

abbrev took : ℕ → Duration
took n = record { nanos = pos n }

abbrev echo_to : ℕ → ℕ → Reply
echo_to thr n = record {
  send_res = pos 2;
  result = record { ret = pos 4; buf = expected thr; addr = default_addr unspec };
  now = at n;
}

abbrev silence : ℕ → Reply
silence n = record {
  send_res = pos 2;
  result = record { ret = esqe_timeout; buf = []; addr = default_addr unspec };
  now = at n;
}

abbrev before : Fibers
before = record { starts = λ i. at (10 + i); timings = []; dead_packets = 0 }

abbrev alone : ℕ → Client
alone i = record { start = at (10 + i); timings = []; dead_packets = 0 }

abbrev turns : List (ℕ × Reply)
turns = (1, echo_to 1 20) ∷ (2, echo_to 2 25) ∷ (2, silence 40) ∷ (1, echo_to 1 50) ∷ []

abbrev after : Fibers
after = record {
  starts =
      set_start 1 (at 50)
        (set_start 2 (at 40) (set_start 2 (at 25) (set_start 1 (at 20) before.starts)));
  timings = took 30 ∷ took 13 ∷ took 9 ∷ [];
  dead_packets = 1;
}

runs : run_fibers expected turns before ≡ ok after
unfolding run_fibers client_step sub_instants set_start ◌-ℤ◌
runs = refl

run_fibers-client_loop_example :
    (own : Client) × (client_loop (expected 1) (alone 1) (echo_to 1 20 ∷ echo_to 1 50 ∷ [])
      ≡ ok own)
    × IsShare 1 own after
run_fibers-client_loop_example =
    run_fibers-client_loop expected turns 1 (alone 1) before after (refl, ([], done), (0, refl))
      runs

-- The second fiber has an answer that is for the first.
abbrev mixed_up : List (ℕ × Reply)
mixed_up = (1, echo_to 1 20) ∷ (2, echo_to 1 25) ∷ []

fails : run_fibers expected mixed_up before ≡ err bad_response
unfolding run_fibers client_step sub_instants set_start ◌-ℤ◌
fails = refl

run_fibers-fails_example :
    ((i : ℕ) × (client_loop (expected i) (alone i) (replies_to i mixed_up) ≡ err bad_response))
    ⊎ ((bad_response ≡ overflow) × (2 ^ 31 ≤ 0 + lost_in mixed_up))
run_fibers-fails_example =
    run_fibers-fails expected mixed_up alone before bad_response (λ i. refl) (λ i. omega arith)
      fails
