-- ===== src/Programs/Cli.antt =====
-- src/cli.cc: fibers that send a message many times as long as the configured text, wait for a
-- reply without a limit of time, and record how long it took.
pub mod Rounds
pub mod Average
pub mod Whole
use hnet.Prelude.{
  ℕ, zero, suc, ◌-◌, Bool, true, false, List, [], ◌∷◌, ◌++◌, Option, none, some, length, get_elem?,
  if◌then◌else◌,
}
use hnet.Prelude.Options.{◌>>=◌}
use hnet.Prelude.Int.{ℤ, pos, ◌-ℤ◌, leb_ℤ}
use hnet.Prelude.Results.{ok, err}
use hnet.Five.Time.{Instant, Duration, sub_instants, micros}
use hnet.Ring2.Errors.{Outcome, client_bad_sendmsg, overflow}
use hnet.Programs.Client.{same_bytes, cut_warmup, Reply}
use hnet.Programs.Report.{Report, accumulate, divide}

-- `data_to_send` after the loop that appends it to itself; the program does it 10 times.
abbrev pub doubled : ℕ → List ℕ → List ℕ
doubled zero data_to_send = data_to_send
doubled (suc i) data_to_send = doubled i (data_to_send ++ data_to_send)

-- What a fiber holds in its loop; the timings are shared by all, the latest at the head.
pub record CliFiber : Type 0 where
  pub start : Instant
  pub timings : List Duration

-- The body of the loop, and whether the fiber goes on.
unfoldable pub cli_step : List ℕ → CliFiber → Reply → Outcome (Bool × CliFiber)
cli_step configured c e =
    if leb_ℤ e.send_res (pos 0)
    then err (client_bad_sendmsg (pos 0 -ℤ e.send_res))
    else (if same_bytes e.result.buf configured
        then ok (false, c)
        else (elim (sub_instants e.now c.start) [
          | none ↦ err overflow
          | some took ↦ ok (true, record { start = e.now; timings = took ∷ c.timings })
        ]))

-- The loop over its rounds, `count` of them.
unfoldable pub cli_loop : List ℕ → CliFiber → List Reply → Outcome CliFiber
cli_loop configured c [] = ok c
cli_loop configured c (e ∷ es) = elim (cli_step configured c e) [
  | err x ↦ err x
  | ok (false, c') ↦ ok c'
  | ok (true, c') ↦ cli_loop configured c' es
]

-- The timings that are printed: the average is of whole microseconds.
unfoldable pub cli_report : (List Duration → List Duration) → List Duration → Option Report
unfolding accumulate divide
cli_report sort recorded = do
  let timings = sort (cut_warmup recorded)
  min ← get_elem? timings 0
  max ← get_elem? timings (length timings - 1)
  total ← accumulate (record { nanos = pos 0 }) timings
  avg ← divide (micros total.nanos) (length timings)
  some (record { min = min; max = max; avg = avg })
