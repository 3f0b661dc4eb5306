-- ===== src/Five/Time/Clock.antt =====
-- five/five/time.cc: the clock. What `clock_gettime` gives is an argument.
pub mod Elapsed
use hnet.Prelude.{none, some, if◌then◌else◌}
use hnet.Prelude.Int.{ℤ, pos, ◌==ℤ◌}
use hnet.Prelude.Results.{Result, ok, err, ◌>>=◌}
use hnet.Five.Time.{Timespec, Instant, Duration, of_timespec, sub_instants}

-- `NowException` with the `errno`, or a signed overflow, which is undefined behaviour.
pub data ClockError : Type 0 where
  now_exception : ℤ → ClockError
  clock_overflow : ClockError

-- One call of `clock_gettime`: its result, what it wrote, and the `errno` after it.
pub record Reading : Type 0 where
  pub code : ℤ
  pub ts : Timespec
  pub errno : ℤ

unfoldable pub get_now_nanos : Reading → Result ClockError ℤ
get_now_nanos r =
    if r.code ==ℤ pos 0
    then (elim (of_timespec r.ts) [ none ↦ err clock_overflow | some n ↦ ok n ])
    else err (now_exception r.errno)

-- `now` and `now_fast`, of two clocks.
unfoldable pub now : Reading → Result ClockError Instant
unfolding get_now_nanos
now r = do n ← get_now_nanos r; ok (record { nanos = n })

-- `elapsed` and `elapsed_fast`.
unfoldable pub elapsed : Reading → Instant → Result ClockError Duration
unfolding now
elapsed r start = do
  later ← now r
  elim (sub_instants later start) [ none ↦ err clock_overflow | some d ↦ ok d ]
