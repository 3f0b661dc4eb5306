-- ===== src/Five/Time.antt =====
-- five/five/time.h and time.cc: instants and durations in nanoseconds, an `i64`.
-- Signed overflow is undefined behaviour, so arithmetic returns an option: `none` is an overflow.
pub mod Clock
pub mod Conversion
pub mod Arithmetic
pub mod Format
use hnet.Prelude.Options.{◌>>=◌}
use hnet.Prelude.{ℕ, ◌*◌, ◌-◌, ◌%◌, ◌^◌, Bool, not, Option, none, some, if◌then◌else◌, ltb}
use hnet.Prelude.Int.{ℤ, pos, negsuc, ◌+ℤ◌, ◌-ℤ◌, ◌*ℤ◌, tdiv, tmod, checked, ltb_ℤ, leb_ℤ, ◌==ℤ◌}

abbrev pub giga : ℕ
giga = 1_000_000_000

-- `struct timespec`; `struct __kernel_timespec` has the same fields.
pub record Timespec : Type 0 where
  pub tv_sec : ℤ
  pub tv_nsec : ℤ

-- `TimeBase` with its one field. `Instant` and `Duration` add operations alone.
pub record Instant : Type 0 where
  pub nanos : ℤ

pub record Duration : Type 0 where
  pub nanos : ℤ

-- The constructor from a `timespec`, and the sum in `get_now_nanos`.
unfoldable pub of_timespec : Timespec → Option ℤ
of_timespec ts = do seconds ← checked (ts.tv_sec *ℤ pos giga); checked (seconds +ℤ ts.tv_nsec)

unfoldable pub as_timespec : ℤ → Timespec
as_timespec n = record { tv_sec = tdiv n giga; tv_nsec = tmod n giga }

unfoldable pub micros : ℤ → ℤ
micros n = tdiv n 1_000

unfoldable pub millis : ℤ → ℤ
millis n = tdiv n 1_000_000

unfoldable pub seconds : ℤ → ℤ
seconds n = tdiv n giga

-- The six comparisons of `TimeBase`; three of them are defined by the others.
unfoldable pub eq : ℤ → ℤ → Bool
eq a b = a ==ℤ b

unfoldable pub lt : ℤ → ℤ → Bool
lt a b = ltb_ℤ a b

unfoldable pub le : ℤ → ℤ → Bool
le a b = leb_ℤ a b

unfoldable pub ne : ℤ → ℤ → Bool
unfolding eq
ne a b = not (eq a b)

unfoldable pub gt : ℤ → ℤ → Bool
unfolding le
gt a b = not (le a b)

unfoldable pub ge : ℤ → ℤ → Bool
unfolding lt
ge a b = not (lt a b)

abbrev duration : Option ℤ → Option Duration
duration none = none
duration (some n) = some (record { nanos = n })

abbrev instant : Option ℤ → Option Instant
instant none = none
instant (some n) = some (record { nanos = n })

unfoldable pub sub_instants : Instant → Instant → Option Duration
sub_instants a b = duration (checked (a.nanos -ℤ b.nanos))

unfoldable pub add_to_instant : Instant → Duration → Option Instant
add_to_instant a d = instant (checked (a.nanos +ℤ d.nanos))

unfoldable pub sub_from_instant : Instant → Duration → Option Instant
sub_from_instant a d = instant (checked (a.nanos -ℤ d.nanos))

unfoldable pub add_durations : Duration → Duration → Option Duration
add_durations d e = duration (checked (d.nanos +ℤ e.nanos))

unfoldable pub sub_durations : Duration → Duration → Option Duration
sub_durations d e = duration (checked (d.nanos -ℤ e.nanos))

pub data TimeUnit : Type 0 where
  ns us ms s : TimeUnit

-- The three tests of `operator <<` in turn, each of which may change the scale and the unit.
unfoldable pub scale_of : ℤ → ℕ × TimeUnit
scale_of n =
    let (scale0, unit0) : ℕ × TimeUnit = if ltb_ℤ (pos 2_000) n then (1_000, us) else (1, ns) in
    let (scale1, unit1) : ℕ × TimeUnit =
      if ltb_ℤ (pos 2_000_000) n then (scale0 * 1_000, ms) else (scale0, unit0) in
    if ltb_ℤ (pos 2_000_000_000) n then (scale1 * 1_000, s) else (scale1, unit1)

-- The number that is printed, and the unit.
unfoldable pub print : Duration → ℤ × TimeUnit
unfolding scale_of
print d = let (scale, unit) = scale_of d.nanos in (tdiv d.nanos scale, unit)

-- The literals `_ns`, `_us`, `_ms` and `_s`: a product in `unsigned long long`, then a conversion
-- to `i64`, which takes the value modulo 2 ^ 64.
abbrev pub to_i64 : ℕ → ℤ
to_i64 w = if ltb w (2 ^ 63) then pos w else negsuc (2 ^ 64 - 1 - w)

unfoldable pub literal : ℕ → ℕ → Duration
literal unit_nanos count = record { nanos = to_i64 (count * unit_nanos % 2 ^ 64) }
