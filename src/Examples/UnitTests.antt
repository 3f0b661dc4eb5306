-- ===== src/Examples/UnitTests.antt =====
-- The unit tests of five/five/ut, run.
use hnet.Prelude.{ℕ, ◌≡◌, refl, true, false, some, arith}
use hnet.Prelude.Int.{pos, tdiv, ◌+ℤ◌, ◌-ℤ◌, ◌*ℤ◌}
use hnet.Prelude.Results.{ok}
use hnet.Five.Xrange.{xrange_to, div_i64, visit, begin, end}
use hnet.Five.Time.{sub_instants, add_to_instant, sub_from_instant, eq, gt, print, of_timespec}
use hnet.Five.Time.Clock.{now}
use hnet.Five.UnitTests.{
  S2, either2_basic, either2_to_from_raw, either2_destroy, xrange_basic, instant_basic,
  instant_diffs, instant_repr,
}
use hnet.Five.UnitTests.Outcomes.{either2_tests}

abbrev zeros : ℕ → S2
zeros a = record { d = 0; c = 0 }

either2_tests_example :
    (either2_basic 64 zeros ≡ some true)
    × (either2_to_from_raw 64 zeros ≡ some true)
    × (either2_destroy 64 (λ a. false) ≡ some false)
either2_tests_example = either2_tests 64 zeros (λ a. false) (omega arith) refl

-- The loop over the range has no rounds.
counts : xrange_basic 1 ≡ some true
unfolding xrange_basic xrange_to ◌-ℤ◌ div_i64 tdiv ◌+ℤ◌ ◌*ℤ◌ visit begin end
counts = refl

diffs : instant_diffs ≡ some true
unfolding instant_diffs sub_instants ◌-ℤ◌ add_to_instant ◌+ℤ◌ sub_from_instant eq
diffs = refl

texts : instant_repr ≡ true
unfolding instant_repr print tdiv
texts = refl

is_late :
    instant_basic
      (record { code = pos 0; ts = record { tv_sec = pos 1; tv_nsec = pos 5 }; errno = pos 0 })
    ≡ ok true
unfolding instant_basic now of_timespec ◌+ℤ◌ ◌*ℤ◌ gt
is_late = refl
