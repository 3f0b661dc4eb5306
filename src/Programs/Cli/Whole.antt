-- ===== src/Programs/Cli/Whole.antt =====
-- src/cli.cc, `ClientProgram::Run` as a whole: the socket that all fibers share, the fibers by turns,
-- and the report. The order of the turns, with what the calls of each return, is a parameter.
pub mod Echoed
pub mod Reported
use mathlib.Core.List.{reverse}
use hnet.Prelude.{
  ℕ, ◌%◌, ◌^◌, Bool, not, true, false, List, [], ◌∷◌, Option, none, some, length, ◌==◌,
  if◌then◌else◌,
}
use hnet.Prelude.Options.{◌>>=◌}
use hnet.Prelude.Results.{Result, ok, err}
use hnet.Five.Time.{Instant, Duration}
use hnet.Ring2.Addr as Address
use hnet.Ring2.Addr.{Inet, v4, from_parts}
use hnet.Ring2.Errors.{Error, Outcome, overflow}
use hnet.Ring2.Sock as Sock
use hnet.Ring2.Sock.{Sockets, udp, open_socket, close_socket}
use hnet.Programs.Settings.{ClientConfig}
use hnet.Programs.Client.{Reply, cut_warmup}
use hnet.Programs.Client.Fibers.{set_start}
use hnet.Prelude.Int.{pos_part}
use hnet.Programs.Joins.{in_turns, after_join, reserve}
use hnet.Programs.Report.{Report, to_u64}
use hnet.Programs.Cli.{CliFiber, cli_step, cli_report}

-- Each fiber has a start, and may have returned; the timings are shared.
pub record CliFibers : Type 0 where
  pub starts : ℕ → Instant
  pub returned : ℕ → Bool
  pub timings : List Duration

unfoldable pub set_returned : ℕ → Bool → (ℕ → Bool) → ℕ → Bool
set_returned thr b returned a = if thr == a then b else returned a

-- A turn of the fiber `thr`: a round of its loop, unless it has returned.
unfoldable pub cli_turn : List ℕ → ℕ → Reply → CliFibers → Outcome CliFibers
unfolding set_start set_returned
cli_turn configured thr e w =
    let turned : Outcome CliFibers =
      elim (cli_step configured (record { start = w.starts thr; timings = w.timings }) e) [
        | err x ↦ err x
        | ok (goes_on, c) ↦ ok (record {
          starts = set_start thr c.start w.starts;
          returned = set_returned thr (not goes_on) w.returned;
          timings = c.timings;
        })
      ] in
    if w.returned thr then ok w else turned

unfoldable pub run_cli_fibers : List ℕ → List (ℕ × Reply) → CliFibers → Outcome CliFibers
unfolding cli_turn
run_cli_fibers configured [] w = ok w
run_cli_fibers configured ((thr, e) ∷ turns) w = elim (cli_turn configured thr e w) [
  | err x ↦ err x
  | ok w' ↦ run_cli_fibers configured turns w'
]

pub data CliStopped : Type 0 where
  no_socket : Sock.Error → CliStopped
  bad_address : Address.Error → CliStopped
  threw : Error → CliStopped
  -- a `length_error` of `timings.reserve`
  too_long : CliStopped
  -- the turns are not those of a whole run
  no_run : CliStopped

-- What it logs at its end: the number of timings that are left, and their report.
pub record CliSummary : Type 0 where
  pub requests : ℕ
  pub report : Report

unfoldable pub cli_sum_up : (List Duration → List Duration) → CliFibers → Option CliSummary
cli_sum_up sort w = do
  r ← cli_report sort (reverse w.timings)
  some (record { requests = length (cut_warmup (reverse w.timings)); report = r })

module _ (i : Inet) (sort : List Duration → List Duration) where
  -- What follows once the socket is there: `threads` fibers of `count` rounds.
  unfoldable pub cli_body :
      ClientConfig → (ℕ → Instant) → List (ℕ × Reply) → Option (Result CliStopped CliSummary)
  cli_body config starts turns =
      let w : CliFibers = record { starts = starts; returned = λ thr. false; timings = [] } in
      elim (from_parts i config.server.host (to_u64 config.server.port % 2 ^ 16) v4) [
        | err x ↦ some (err (bad_address x))
        | ok addr ↦
            let threads = pos_part config.threads in
            let count = pos_part config.count in
            let overflowed = threw overflow in
            reserve no_run overflowed too_long config.count config.threads (
              in_turns no_run overflowed threads count turns
                (elim (run_cli_fibers config.data_to_send turns w) [
                  | err x ↦ some (err (threw x))
                  | ok w' ↦
                      after_join no_run overflowed threads count w'.returned turns
                        (do s ← cli_sum_up sort w'; some (ok s))
                ]))
      ]

  -- The socket is closed at the end, and where an exception passes.
  unfoldable pub run_cli :
      (os : Sockets)
      → ClientConfig
      → (ℕ → Instant)
      → List (ℕ × Reply)
      → os.S
      → Option (Result CliStopped CliSummary) × os.S
  run_cli os config starts turns s =
      let (made, s') = open_socket os v4 udp s in
      elim made [
        | err x ↦ (some (err (no_socket x)), s')
        | ok sock ↦ (cli_body config starts turns, close_socket os sock s')
      ]
