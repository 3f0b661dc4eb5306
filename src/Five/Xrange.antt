-- ===== src/Five/Xrange.antt =====
-- five/five/xrange.h and xrange.cc: a range of integers for a range-based `for`.
-- `none` is undefined behaviour or a failed assertion: an overflow, a division by 0.
pub mod Range
use hnet.Prelude.Options.{◌>>=◌}
use hnet.Prelude.{
  ℕ, zero, suc, Bool, true, false, not, List, [], ◌∷◌, Option, none, some, ◌==◌, if◌then◌else◌,
}
use hnet.Prelude.Int.{ℤ, pos, pos_part, neg_part, ◌+ℤ◌, ◌-ℤ◌, ◌*ℤ◌, ◌==ℤ◌, ltb_ℤ, tdiv, checked}

pub record Xrange : Type 0 where
  pub start : ℤ
  pub stop : ℤ
  pub step : ℤ

pub record Iterator : Type 0 where
  pub cur : ℤ
  pub step : ℤ

-- C++ division of two `i64`.
unfoldable pub div_i64 : ℤ → ℤ → Option ℤ
div_i64 a b =
    if b ==ℤ pos 0
    then none
    else checked (if ltb_ℤ b (pos 0) then pos 0 -ℤ tdiv a (neg_part b) else tdiv a (pos_part b))

unfoldable pub calc_real_stop : ℤ → ℤ → ℤ → Option ℤ
calc_real_stop start stop step = do
  width ← checked (stop -ℤ start)
  last ← checked (width -ℤ pos 1)
  whole ← div_i64 last step
  rounds ← checked (whole +ℤ pos 1)
  length ← checked (rounds *ℤ step)
  checked (start +ℤ length)

-- The constructor: `stop_` is computed before the assertion on the step.
unfoldable pub make : ℤ → ℤ → ℤ → Option Xrange
unfolding calc_real_stop
make start stop step = do
  real_stop ← calc_real_stop start stop step
  if step ==ℤ pos 0 then none else some (record { start = start; stop = real_stop; step = step })

unfoldable pub begin : Xrange → Iterator
begin x = record { cur = x.start; step = x.step }

unfoldable pub end : Xrange → Iterator
end x = record { cur = x.start; step = x.step }

-- `operator ++`, with its assertion that the step is 0.
unfoldable pub next : Iterator → Option Iterator
next i =
    if not (i.step ==ℤ pos 0)
    then none
    else (checked (i.cur +ℤ i.step) >>= λ cur. some (record i { cur = cur }))

-- `for (auto v : range)`: the values that the body is given, with fuel. The outer option is the
-- fuel's, the inner one a failed assertion's.
unfoldable pub visit : ℕ → Iterator → Iterator → Option (Option (List ℤ))
visit zero i e = none
visit (suc fuel) i e = elim (i.cur ==ℤ e.cur) [
  | true ↦ some (some [])
  | false ↦ elim (next i) [
    | none ↦ some none
    | some j ↦ elim (visit fuel j e) [
      | none ↦ none
      | some none ↦ some none
      | some (some vs) ↦ some (some (i.cur ∷ vs))
    ]
  ]
]

-- `xrange(stop)`, `xrange(start, stop)` and `xrange(start, stop, step)`.
unfoldable pub xrange_to : ℤ → Option Xrange
unfolding make
xrange_to stop = make (pos 0) stop (pos 1)

unfoldable pub xrange_from : ℤ → ℤ → Option Xrange
unfolding make
xrange_from start stop = make start stop (pos 1)

unfoldable pub xrange_by : ℤ → ℤ → ℤ → Option Xrange
unfolding make
xrange_by start stop step = make start stop step
