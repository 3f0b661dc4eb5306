-- ===== src/Five/Xrange/Range.antt =====
-- Which end a range computes, and which one its loop uses.
use hnet.Prelude.{ℕ, suc, ◌+◌, ◌-◌, ◌*◌, ◌/◌, ◌<◌, ◌≤◌, ◌≡◌, [], some, arith, ap}
use hnet.Prelude.Int.{
  ℤ, pos, pos_part, neg_part, ◌+ℤ◌, ◌-ℤ◌, ◌*ℤ◌, ◌<ℤ◌, ◌≤ℤ◌, tdiv, ==ℤ_refl, checked, int_laws,
}
use hnet.Five.Xrange.{Xrange, make, div_i64, calc_real_stop, begin, end, visit}

-- The body of a loop over a range never runs, whatever the range: `end()` is `begin()`.
pub visit-nothing :
    (start stop step : ℤ) (x : Xrange) (fuel : ℕ)
    → make start stop step ≡ some x
    → visit (suc fuel) (begin x) (end x) ≡ some (some [])
unfolding visit begin end
visit-nothing start stop step x fuel made = rw (==ℤ_refl x.start, visit)

-- `n / s + 1` steps of `s` reach past `n`, and one step less does not.
rounds_up : (n s : ℕ) → 0 < s → (n < (n / s + 1) * s) × ((n / s + 1) * s ≤ n + s)
rounds_up n s h = grind arith

div_i64-pos : (m n : ℕ) → div_i64 (pos m) (pos (suc n)) ≡ checked (pos (m / suc n))
unfolding div_i64 tdiv ◌-ℤ◌
div_i64-pos m n = ground arith

mul-pos : (a b : ℕ) → pos a *ℤ pos b ≡ pos (a * b)
unfolding ◌*ℤ◌
mul-pos a b = ground arith

calc_real_stop-pos :
    (start stop r : ℤ) (m n : ℕ)
    → stop -ℤ start ≡ pos (suc m)
    → calc_real_stop start stop (pos (suc n)) ≡ some r
    → r ≡ start +ℤ pos (suc (m / suc n) * suc n)
unfolding calc_real_stop
calc_real_stop-pos start stop r m n width e =
    let last : pos (suc m) -ℤ pos 1 ≡ pos m = omega int_laws in
    let rounds : pos (m / suc n) +ℤ pos 1 ≡ pos (suc (m / suc n)) = omega int_laws in
    ground (arith, width, last, div_i64-pos m n, rounds, mul-pos (suc (m / suc n)) (suc n))

sub-pos : (a b : ℤ) → a <ℤ b → b -ℤ a ≡ pos (suc (pos_part (b -ℤ a) - 1))
unfolding ◌-ℤ◌
sub-pos a b h = ground arith

-- With a positive step and a start before the stop, the end that the constructor stores is the first
-- value from the start on, in steps, that is not before the stop.
pub calc_real_stop_lem :
    (start stop r : ℤ) (n : ℕ)
    → start <ℤ stop
    → calc_real_stop start stop (pos (suc n)) ≡ some r
    → (k : ℕ) × (r ≡ start +ℤ pos (suc k * suc n))
      × (stop ≤ℤ r)
      × (start +ℤ pos (k * suc n) <ℤ stop)
calc_real_stop_lem start stop r n before e =
    let m = pos_part (stop -ℤ start) - 1 in
    let width : stop -ℤ start ≡ pos (suc m) = sub-pos start stop before in
    let reached : r ≡ start +ℤ pos (suc (m / suc n) * suc n) =
      calc_real_stop-pos start stop r m n width e in
    (
      m / suc n,
      reached,
      rw reached (omega (int_laws, rounds_up m (suc n), ap pos_part width, ap neg_part width)),
      omega (int_laws, rounds_up m (suc n), ap pos_part width, ap neg_part width),
    )
