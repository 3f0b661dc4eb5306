-- ===== src/Five/UnitTests.antt =====
-- five/five/ut/bit_ptr.cc, xrange.cc and time.cc: the unit tests. An assertion that fails is `false`;
-- `none` is a failed check of the code under test, or undefined behaviour.
pub mod Outcomes
use hnet.Prelude.{
  ℕ, suc, Bool, true, false, ◌&&◌, List, [], ◌∷◌, Option, none, some, ◌==◌, leb, if◌then◌else◌,
}
use hnet.Prelude.Int.{ℤ, pos, ◌==ℤ◌, ltb_ℤ}
use hnet.Prelude.Options.{◌>>=◌}
use hnet.Prelude.Results.{Result, ok, err}
use hnet.Five.BitPtr.{construct, bit_count, get_index, raw_of, either2, object_of}
use hnet.Five.BitPtr.Owners.{new_either2, destroy_either2}
use hnet.Five.Objects.{Heap}
use hnet.Five.Xrange.{xrange_to, begin, end, visit}
use hnet.Five.Time.{
  Instant, Duration, TimeUnit, ns, us, ms, s, eq, gt, sub_instants, add_to_instant,
  sub_from_instant, print,
}
use hnet.Five.Time.Clock.{ClockError, Reading, now}

-- `S2`, whose numbers are whole ones here.
pub record S2 : Type 0 where
  pub d : ℕ
  pub c : ℕ

-- What lies at which address.
unfoldable pub put_s2 : ℕ → S2 → (ℕ → S2) → ℕ → S2
put_s2 at x memory a = if a == at then x else memory a

-- The four assertions on a pointer to the second of two types.
unfoldable pub points_to_s2 : ℕ → (ℕ → S2) → Bool
unfolding bit_count get_index object_of
points_to_s2 p memory =
    leb (bit_count 2) 1
    && (get_index 2 p == 1)
    && ((memory (object_of 2 p)).d == 5)
    && ((memory (object_of 2 p)).c == 6)

-- `TEST(EitherPtr2, Basic)` and `TEST(EitherPtr2, ToFromRaw)`; `raw` is where `new` puts the object.
unfoldable pub either2_basic : ℕ → (ℕ → S2) → Option Bool
unfolding points_to_s2 put_s2
either2_basic raw memory = do
  p ← construct 2 1 raw
  some (points_to_s2 p (put_s2 raw (record { d = 5; c = 6 }) memory))

unfoldable pub either2_to_from_raw : ℕ → (ℕ → S2) → Option Bool
unfolding points_to_s2 put_s2 raw_of either2
either2_to_from_raw raw memory = do
  p ← construct 2 1 raw
  some (points_to_s2 (either2 (raw_of p)) (put_s2 raw (record { d = 5; c = 6 }) memory))

-- `TEST(EitherPtr2, Destroy)`: an object that is still there was not destroyed.
unfoldable pub either2_destroy : ℕ → Heap → Option Bool
either2_destroy raw live = do
  (p, live') ← new_either2 2 1 raw live
  some ((if (destroy_either2 p live') raw then 0 else 1) == 1)

-- `TEST(Xrange, Basic)`: the loop's values are counted from `i`.
unfoldable pub counts_from : ℕ → List ℤ → Bool
counts_from i [] = true
counts_from i (j ∷ js) = (pos i ==ℤ j) && counts_from (suc i) js

unfoldable pub xrange_basic : ℕ → Option Bool
unfolding counts_from
xrange_basic fuel = do
  range ← xrange_to (pos 10)
  visited ← visit fuel (begin range) (end range)
  values ← visited
  some (counts_from 0 values)

-- `TEST(Instant, Basic)`.
unfoldable pub instant_basic : Reading → Result ClockError Bool
instant_basic r = elim (now r) [ err e ↦ err e | ok i ↦ ok (gt i.nanos (pos 0)) ]

-- `TEST(Instant, Diffs)`.
abbrev at_nanos : ℕ → Instant
at_nanos n = record { nanos = pos n }

abbrev for_nanos : ℕ → Duration
for_nanos n = record { nanos = pos n }

unfoldable pub instant_diffs : Option Bool
instant_diffs = do
  d ← sub_instants (at_nanos 100) (at_nanos 50)
  later ← add_to_instant (at_nanos 100) (for_nanos 50)
  earlier ← sub_from_instant (at_nanos 100) (for_nanos 50)
  some (eq d.nanos (pos 50) && eq later.nanos (pos 150) && eq earlier.nanos (pos 50))

-- `TEST(Instant, Repr)`: the number and the unit that make up the text.
abbrev unit_index : TimeUnit → ℕ
unit_index ns = 0
unit_index us = 1
unit_index ms = 2
unit_index s = 3

unfoldable pub shows : ℕ → ℕ → TimeUnit → Bool
shows nanos number unit =
    let (v, u) = print (for_nanos nanos) in (v ==ℤ pos number) && (unit_index u == unit_index unit)

unfoldable pub instant_repr : Bool
unfolding shows
instant_repr =
    shows 42 42 ns
    && shows 2_000 2_000 ns
    && shows 2_001 2 us
    && shows 2_000_000 2_000 us
    && shows 2_000_001 2 ms
    && shows 2_000_000_000 2_000 ms
    && shows 2_000_000_001 2 s
