-- ===== src/Programs/Report.antt =====
-- What src/infallible_udp.cc reports of its timings: the smallest, the largest and the average.
-- `std::sort` is an argument. `none` is undefined behaviour: a division by 0, an index out of range,
-- an overflow. The quantiles and the rates are floating point and left out.
pub mod Range
pub mod Warmup
use hnet.Prelude.{
  ℕ, ◌-◌, ◌/◌, ◌^◌, List, [], ◌∷◌, Option, none, some, length, get_elem?, ◌==◌, if◌then◌else◌,
}
use hnet.Prelude.Int.{ℤ, pos, negsuc}
use hnet.Five.Time.{Duration, add_durations}
use hnet.Prelude.Options.{◌>>=◌}
use hnet.Programs.Client.{cut_warmup}

pub record Report : Type 0 where
  pub min : Duration
  pub max : Duration
  pub avg : ℕ

-- `std::accumulate` from a first value.
unfoldable pub accumulate : Duration → List Duration → Option Duration
accumulate total [] = some total
accumulate total (d ∷ ds) = do total' ← add_durations total d; accumulate total' ds

-- An `i64` that is divided by a `size_t` is taken modulo 2 ^ 64.
abbrev pub to_u64 : ℤ → ℕ
to_u64 (pos n) = n
to_u64 (negsuc n) = 2 ^ 64 - 1 - n

unfoldable pub divide : ℤ → ℕ → Option ℕ
divide a n = if n == 0 then none else some (to_u64 a / n)

unfoldable pub report : (List Duration → List Duration) → List Duration → Option Report
unfolding accumulate divide
report sort recorded = do
  let timings = sort (cut_warmup recorded)
  total ← accumulate (record { nanos = pos 0 }) timings
  avg ← divide total.nanos (length timings)
  min ← get_elem? timings 0
  max ← get_elem? timings (length timings - 1)
  some (record { min = min; max = max; avg = avg })
