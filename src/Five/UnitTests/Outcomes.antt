-- ===== src/Five/UnitTests/Outcomes.antt =====
-- How the unit tests end.
use hnet.Prelude.{ℕ, ◌%◌, ◌^◌, ◌<◌, ◌≡◌, refl, true, false, some, arith}
use hnet.Five.BitPtr.{bit_count, get_index, object_of, raw_of, either2}
use hnet.Five.Objects.{Heap, set_live}
use hnet.Five.BitPtr.Tags.{construct_lem}
use hnet.Five.BitPtr.Owners.{new_either2, destroy_either2}
use hnet.Five.UnitTests.{
  S2, put_s2, points_to_s2, either2_basic, either2_to_from_raw, either2_destroy,
}

points_to_s2-put_s2 :
    (p raw : ℕ) (memory : ℕ → S2)
    → get_index 2 p ≡ 1
    → object_of 2 p ≡ raw
    → points_to_s2 p (put_s2 raw (record { d = 5; c = 6 }) memory) ≡ true
unfolding points_to_s2 put_s2 bit_count
points_to_s2-put_s2 p raw memory tag at =
    rw (tag, points_to_s2) (rw (at, points_to_s2) (ground arith))

-- Wherever `new` puts an object that is aligned for a pointer to two types, the tests of what it
-- points to pass, also through the raw pointer, and the test of its destruction fails.
pub either2_tests :
    (raw : ℕ) (memory : ℕ → S2) (live : Heap)
    → raw < 2 ^ 64
    → raw % 2 ≡ 0
    → (either2_basic raw memory ≡ some true)
      × (either2_to_from_raw raw memory ≡ some true)
      × (either2_destroy raw live ≡ some false)
unfolding either2_basic either2_to_from_raw either2_destroy new_either2 destroy_either2 set_live
    raw_of either2 bit_count get_index object_of
either2_tests raw memory live word aligned =
    let (p, made, tag, at) =
      construct_lem 2 1 raw (omega arith) (omega arith) (omega arith) word aligned in
    (
      rw (made, either2_basic) (rw (points_to_s2-put_s2 p raw memory tag at) refl),
      rw (made, either2_to_from_raw) (rw (points_to_s2-put_s2 p raw memory tag at) refl),
      rw (made, either2_destroy) (ground arith),
    )
