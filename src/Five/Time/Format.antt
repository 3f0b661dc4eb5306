-- ===== src/Five/Time/Format.antt =====
-- What `operator <<` prints.
use hnet.Prelude.{ℕ, ◌+◌, ◌*◌, ◌<◌, ◌≤◌, ◌≡◌, ◌⊎◌, arith}
use hnet.Prelude.Int.{pos, negsuc, pos_part, tdiv}
use hnet.Five.Time.{TimeUnit, ns, us, ms, s, print}

-- The nanoseconds in a unit.
abbrev pub unit_nanos : TimeUnit → ℕ
unit_nanos ns = 1
unit_nanos us = 1_000
unit_nanos ms = 1_000_000
unit_nanos s = 1_000_000_000

-- A duration that is not negative prints as a number of its unit, rounded down, which is at most
-- 2000 unless the unit is seconds and at least 2 unless it is nanoseconds. A negative one prints in
-- nanoseconds, whatever its size.
pub print_lem :
    (n : ℕ)
    → let (v, unit) = print (record { nanos = pos n }) in
      (v ≡ pos (pos_part v))
      × (pos_part v * unit_nanos unit ≤ n)
      × (n < (pos_part v + 1) * unit_nanos unit)
      × ((unit ≡ s) ⊎ (pos_part v ≤ 2_000))
      × ((unit ≡ ns) ⊎ (2 ≤ pos_part v))
      × (print (record { nanos = negsuc n }) ≡ (negsuc n, ns))
unfolding print tdiv
print_lem n = (ground arith, ground arith, ground arith, ground arith, ground arith, ground arith)
