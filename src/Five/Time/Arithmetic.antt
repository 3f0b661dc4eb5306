-- ===== src/Five/Time/Arithmetic.antt =====
-- Laws of the arithmetic and the comparisons.
use hnet.Prelude.{ℕ, ◌-◌, ◌^◌, ◌≤◌, ◌<◌, ◌≡◌, ◌↔◌, ◌||◌, true, some, arith}
use hnet.Prelude.Int.{ℤ, pos, IsI64, ◌+ℤ◌, ◌-ℤ◌, ◌<ℤ◌, ◌≤ℤ◌}
use hnet.Five.Time.{
  Instant, Duration, sub_instants, add_to_instant, sub_from_instant, eq, lt, le, ne, gt, ge,
}

-- A difference of two `i64` instants that does not overflow, added to the earlier instant, gives the later one back, and
-- taken from the later instant gives the earlier one.
pub sub_instants_lem :
    (a b : Instant) (d : Duration)
    → IsI64 a.nanos
    → IsI64 b.nanos
    → sub_instants a b ≡ some d
    → (add_to_instant b d ≡ some a) × (sub_from_instant a d ≡ some b)
unfolding sub_instants add_to_instant sub_from_instant ◌+ℤ◌ ◌-ℤ◌
sub_instants_lem a b d h k e = ground arith

-- An instant moved on by a duration, with no overflow, is that far from where it was.
pub sub_instants-add_to_instant :
    (a b : Instant) (d : Duration)
    → IsI64 d.nanos
    → add_to_instant a d ≡ some b
    → sub_instants b a ≡ some d
unfolding sub_instants add_to_instant ◌+ℤ◌ ◌-ℤ◌
sub_instants-add_to_instant a b d h e = ground arith

-- The six comparisons agree with the order of the integers and with one another.
pub comparisons_lem :
    (a b : ℤ)
    → ((lt a b ≡ true) ↔ (a <ℤ b))
      × ((le a b ≡ true) ↔ (a ≤ℤ b))
      × ((eq a b ≡ true) ↔ (a ≡ b))
      × (gt a b ≡ lt b a)
      × (ge a b ≡ le b a)
      × (ne a b ≡ (lt a b || gt a b))
unfolding eq lt le ne gt ge
comparisons_lem a b =
    (ground arith, ground arith, ground arith, ground arith, ground arith, ground arith)

pub sub_instants-nanos :
    (a b : Instant) (d : Duration) → sub_instants a b ≡ some d → d.nanos +ℤ b.nanos ≡ a.nanos
unfolding sub_instants ◌+ℤ◌ ◌-ℤ◌
sub_instants-nanos a b d e = ground arith

-- A difference of two instants, of which the later comes first.
pub sub_instants_later :
    (b a : Instant) (s t : ℕ)
    → a.nanos ≡ pos s
    → b.nanos ≡ pos t
    → s ≤ t
    → t < 2 ^ 63
    → sub_instants b a ≡ some (record { nanos = pos (t - s) })
unfolding sub_instants ◌-ℤ◌
sub_instants_later b a s t e f later fits = ground arith
