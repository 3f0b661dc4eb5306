-- ===== src/Five/Time/Clock/Elapsed.antt =====
-- What has elapsed between two readings of the clock.
use hnet.Prelude.{ℕ, ◌+◌, ◌*◌, ◌^◌, ◌<◌, ◌≡◌, refl, some, arith}
use hnet.Prelude.Int.{pos, ◌+ℤ◌, ◌-ℤ◌, ◌*ℤ◌, checked}
use hnet.Prelude.Results.{ok}
use hnet.Five.Time.{Instant, Duration, giga, of_timespec, sub_instants}
use hnet.Five.Time.Arithmetic.{sub_instants-nanos}
use hnet.Five.Time.Clock.{Reading, now, elapsed}

-- The clock was read, at a time before the year 2242.
pub record IsRead (r : Reading) (s n : ℕ) : Type 0 where
  pub worked : r.code ≡ pos 0
  pub seconds : r.ts.tv_sec ≡ pos s
  pub rest : r.ts.tv_nsec ≡ pos n
  pub early : s < 2 ^ 33
  pub within : n < giga

times_pos : (a b : ℕ) → a * b < 2 ^ 63 → checked (pos a *ℤ pos b) ≡ some (pos (a * b))
unfolding ◌*ℤ◌
times_pos a b h = grind arith

plus_pos : (a b : ℕ) → a + b < 2 ^ 63 → checked (pos a +ℤ pos b) ≡ some (pos (a + b))
unfolding ◌+ℤ◌
plus_pos a b h = ground arith

sub_early :
    (later start : Instant) (a b : ℕ)
    → later.nanos ≡ pos a
    → start.nanos ≡ pos b
    → a < 2 ^ 63
    → b < 2 ^ 63
    → (d : Duration) × (sub_instants later start ≡ some d)
unfolding sub_instants ◌-ℤ◌
sub_early later start a b e f h k = (record { nanos = later.nanos -ℤ start.nanos }, ground arith)

of_timespec-IsRead :
    (r : Reading) (s n : ℕ) → IsRead r s n → of_timespec r.ts ≡ some (pos (s * giga + n))
unfolding of_timespec
of_timespec-IsRead r s n read =
    rw (read.seconds, read.rest, times_pos s giga (omega (arith, read.early)), of_timespec)
      (plus_pos (s * giga) n (omega (arith, read.early, read.within)))

now-IsRead :
    (r : Reading) (s n : ℕ) → IsRead r s n → now r ≡ ok (record { nanos = pos (s * giga + n) })
unfolding now
now-IsRead r s n read = rw (read.worked, of_timespec-IsRead r s n read) refl

elapsed_of :
    (r : Reading) (start later : Instant) (d : Duration)
    → now r ≡ ok later
    → sub_instants later start ≡ some d
    → elapsed r start ≡ ok d
unfolding elapsed
elapsed_of r start later d e f = ground (arith, e, f)

-- Two readings of the clock before the year 2242 do not overflow, and what has elapsed between them,
-- added to the first, gives the second, also where the clock was set back and it is negative.
pub elapsed-now :
    (r r' : Reading) (s n s' n' : ℕ)
    → IsRead r s n
    → IsRead r' s' n'
    → (start : Instant) × (d : Duration) × (now r ≡ ok start)
      × (elapsed r' start ≡ ok d)
      × (start.nanos ≡ pos (s * giga + n))
      × (d.nanos +ℤ start.nanos ≡ pos (s' * giga + n'))
elapsed-now r r' s n s' n' read read' =
    let start : Instant = record { nanos = pos (s * giga + n) } in
    let later : Instant = record { nanos = pos (s' * giga + n') } in
    let (d, fits) =
      sub_early later start (s' * giga + n') (s * giga + n) refl refl
        (omega (arith, read'.early, read'.within)) (omega (arith, read.early, read.within)) in
    (
      start,
      d,
      now-IsRead r s n read,
      elapsed_of r' start later d (now-IsRead r' s' n' read') fits,
      refl,
      sub_instants-nanos later start d fits,
    )
