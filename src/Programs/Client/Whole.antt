-- ===== src/Programs/Client/Whole.antt =====
-- src/infallible_udp.cc, `ClientProgram::Run` as a whole: the padding, the target's address, the
-- sockets of the fibers, their rounds, and the report. The scheduler is a parameter: the order of the
-- fibers' turns, with what the calls of each turn return. That a fiber closes its socket when it
-- returns, the logs, the affinity and the floating-point rates are left out.
pub mod Sockets
pub mod Turns
pub mod Schedule
pub mod Answered
use mathlib.Core.List.{reverse}
use hnet.Prelude.{false, ℕ, zero, suc, ◌+◌, ◌%◌, ◌/◌, ◌^◌, List, [], ◌∷◌, Option, none, some}
use hnet.Prelude.Int.{ℤ, pos_part}
use hnet.Prelude.Options.{◌>>=◌}
use hnet.Prelude.Results.{Result, ok, err}
use hnet.Five.Time.{Instant, Duration}
use hnet.Ring2.Addr as Address
use hnet.Ring2.Addr.{Inet, v4, from_parts}
use hnet.Ring2.Errors.{Error, overflow}
use hnet.Ring2.Sock as Sock
use hnet.Ring2.Sock.{Socket}
use hnet.Programs.Client.Whole.Sockets.{client_socket}
use hnet.Programs.Joins.{in_turns, after_join, reserve}
use hnet.Programs.Settings.{UdpClientConfig}
use hnet.Programs.Client.{Reply, pad}
use hnet.Programs.Client.Fibers.{Fibers, expected_of, run_fibers}
use hnet.Programs.Report.{Report, to_u64, report}

-- What `Run` throws.
pub data Stopped : Type 0 where
  bad_address : Address.Error → Stopped
  no_socket : Sock.Error → Stopped
  threw : Error → Stopped
  -- a `length_error` of `timings.reserve`
  too_long : Stopped
  -- the turns are not those of a whole run
  no_run : Stopped

-- What it logs at its end.
pub record Summary : Type 0 where
  pub report : Report
  pub dead_packets : ℕ

-- The rounds of a fiber: `int` division cuts off the fraction. Without fibers there is none.
unfoldable pub rounds_of : UdpClientConfig → ℕ
rounds_of config = pos_part config.count / pos_part config.fibers

-- The padded text. The fuel is one more than the length that is wanted.
unfoldable pub padded : UdpClientConfig → Option (List ℕ)
padded config =
    let data_len = to_u64 config.data_len in
    pad (suc data_len) config.data_to_send data_len config.data_to_send

-- What follows once the fibers are joined.
unfoldable pub sum_up : (List Duration → List Duration) → Fibers → Option Summary
sum_up sort w = do
  r ← report sort (reverse w.timings)
  some (record { report = r; dead_packets = w.dead_packets })

-- The sockets of `n` fibers from `thr` on, each made when its fiber starts. An exception of a fiber
-- ends the run.
unfoldable pub open_sockets :
    (os : Sock.Sockets) → UdpClientConfig → ℕ → ℕ → os.S → Result Sock.Error (List Socket) × os.S
open_sockets os config zero thr s = (ok [], s)
open_sockets os config (suc n) thr s =
    let (made, s') = client_socket os config thr s in
    let (rest, s'') = open_sockets os config n (suc thr) s' in
    elim made [
      | err x ↦ (err x, s')
      | ok sock ↦ elim rest [ err x ↦ (err x, s'') | ok socks ↦ (ok (sock ∷ socks), s'') ]
    ]

module _ (i : Inet) (decimal : ℕ → List ℕ) (sort : List Duration → List Duration) where
  -- The rounds of the fibers, once each has its socket and waits.
  unfoldable pub run_rounds :
      UdpClientConfig → (ℕ → Instant) → List (ℕ × Reply) → List ℕ → Option (Result Stopped Summary)
  run_rounds config starts turns data_to_send =
      let fibers = pos_part config.fibers in
      let overflowed = threw overflow in
      let w : Fibers = record { starts = starts; timings = []; dead_packets = 0 } in
      in_turns no_run overflowed fibers (rounds_of config) turns
        (elim (run_fibers (expected_of decimal data_to_send) turns w) [
          | err x ↦ some (err (threw x))
          | ok w' ↦
              after_join no_run overflowed fibers (rounds_of config) (λ thr. false) turns
                (do s ← sum_up sort w'; some (ok s))
        ])

  -- What the scheduler runs.
  unfoldable pub main_fiber :
      (os : Sock.Sockets)
      → UdpClientConfig
      → (ℕ → Instant)
      → List (ℕ × Reply)
      → List ℕ
      → os.S
      → Option (Result Stopped Summary)
  main_fiber os config starts turns data_to_send s =
      elim (from_parts i config.server.host (to_u64 config.server.port % 2 ^ 16) v4) [
        | err x ↦ some (err (bad_address x))
        | ok addr ↦
            reserve no_run (threw overflow) too_long config.count config.fibers
              (elim (open_sockets os config (pos_part config.fibers) 0 s).0 [
                | err x ↦ some (err (no_socket x))
                | ok socks ↦ run_rounds config starts turns data_to_send
              ])
      ]

  unfoldable pub run_client :
      (os : Sock.Sockets)
      → UdpClientConfig
      → (ℕ → Instant)
      → List (ℕ × Reply)
      → os.S
      → Option (Result Stopped Summary)
  run_client os config starts turns s = do
    data_to_send ← padded config
    main_fiber os config starts turns data_to_send s
