-- ===== src/Five/Time/Conversion.antt =====
-- Conversion between nanoseconds and `timespec`.
use hnet.Prelude.{ℕ, ◌*◌, ◌<◌, ◌^◌, ◌≡◌, some, arith}
use hnet.Prelude.Int.{ℤ, pos, negsuc, IsI64, ◌+ℤ◌, ◌*ℤ◌, tdiv, tmod}
use hnet.Five.Time.{giga, of_timespec, as_timespec, micros, millis, seconds, literal}

-- Every `i64` of nanoseconds is the sum of its `timespec`, whose computation does not overflow.
pub of_timespec-as_timespec : (n : ℤ) → IsI64 n → of_timespec (as_timespec n) ≡ some n
unfolding of_timespec as_timespec ◌+ℤ◌ ◌*ℤ◌ tdiv tmod
of_timespec-as_timespec (pos n) h = ground arith
of_timespec-as_timespec (negsuc n) h = ground arith

-- A duration that is written as a literal of seconds, milliseconds or microseconds is read back as
-- that many of them, while the seconds are few enough to fit an `i64` of nanoseconds; a thousand of
-- a unit are one of the next.
pub literal_lem :
    (n : ℕ)
    → n * giga < 2 ^ 63
    → (seconds (literal giga n).nanos ≡ pos n)
      × (millis (literal 1_000_000 n).nanos ≡ pos n)
      × (micros (literal 1_000 n).nanos ≡ pos n)
      × (literal giga n ≡ literal 1_000_000 (n * 1_000))
      × (literal 1_000_000 n ≡ literal 1_000 (n * 1_000))
unfolding literal seconds millis micros tdiv
literal_lem n small = (ground arith, ground arith, ground arith, ground arith, ground arith)
