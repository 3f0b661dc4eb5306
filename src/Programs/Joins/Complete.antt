-- ===== src/Programs/Joins/Complete.antt =====
-- What a complete schedule of the fibers passes.
use hnet.Prelude.{
  ℕ, zero, suc, ◌+◌, ◌*◌, ◌^◌, ◌<◌, ◌≡◌, refl, Bool, true, false, ◌-◌, ◌||◌, List, [], ◌∷◌, Option,
  ltb, leb, ◌==◌, arith,
}
use hnet.Prelude.Int.{ℤ, pos, ◌*ℤ◌, is_i64}
use hnet.Prelude.Results.{Result}
use hnet.Programs.Client.{Reply}
use hnet.Programs.Client.Whole.Schedule.{IsSchedule, AllTurns}
use hnet.Programs.Joins.{
  all_below, had, are_spawned, in_loops, counters_fit, are_joined, in_turns, after_join, reserve,
}

all_below-true : (n : ℕ) (p : ℕ → Bool) → ((i : ℕ) → i < n → p i ≡ true) → all_below n p ≡ true
unfolding all_below
all_below-true zero p each = refl
all_below-true (suc n) p each =
    rw (each n (omega arith), all_below-true n p (λ i below. each i (omega arith))) refl

are_spawned-AllTurns :
    (fibers : ℕ) (turns : List (ℕ × Reply))
    → AllTurns (λ thr. thr < fibers) turns
    → are_spawned fibers turns ≡ true
unfolding are_spawned
are_spawned-AllTurns fibers [] all = refl
are_spawned-AllTurns fibers ((thr, e) ∷ turns) (below, all) =
    let spawned : ltb thr fibers ≡ true = ground (arith, below) in
    rw (spawned, are_spawned-AllTurns fibers turns all) refl

same-or : (a n m : ℕ) (b : Bool) → n ≡ m → (b || (n == m)) ≡ true
same-or a n m b same = ground (arith, same)

module _ {E A : Type 0} (no_run overflowed : E) (fibers rounds : ℕ) (turns : List (ℕ × Reply))
    (run : Option (Result E A)) where
  pub in_turns-IsSchedule :
      IsSchedule fibers rounds turns
      → fibers < 2 ^ 31
      → rounds < 2 ^ 31
      → in_turns no_run overflowed fibers rounds turns run ≡ run
  unfolding in_turns in_loops counters_fit
  in_turns-IsSchedule (spawned, each) few short =
      let most =
        all_below-true fibers (λ thr. leb (had thr turns) rounds)
          (λ i below. ground (arith, each i below)) in
      let fit =
        all_below-true fibers (λ thr. ltb (had thr turns) (2 ^ 31))
          (λ i below. ground (arith, each i below)) in
      let few' : ltb fibers (2 ^ 31) ≡ true = ground (arith, few) in
      rw (are_spawned-AllTurns fibers turns spawned, most, few', fit) refl

  pub after_join-IsSchedule :
      (returned : ℕ → Bool)
      → IsSchedule fibers rounds turns
      → after_join no_run overflowed fibers rounds returned turns run ≡ run
  unfolding after_join are_joined
  after_join-IsSchedule returned (spawned, each) =
      rw
        (all_below-true fibers (λ thr. returned thr || (had thr turns == rounds))
          (λ i below. ground (arith, each i below)))
        refl

product : (a b : ℕ) → pos a *ℤ pos b ≡ pos (a * b)
unfolding ◌*ℤ◌
product a b =
    let none_below : a * 0 + 0 * b ≡ 0 = omega arith in
    let whole : a * b + 0 * 0 ≡ a * b = omega arith in rw (none_below, whole) (ground arith)

pub reserve-fits :
    {E A : Type 0} (no_run overflowed too_long : E) (count fibers : ℕ) (c f : ℤ)
    (run : Option (Result E A))
    → c ≡ pos count
    → f ≡ pos fibers
    → count * fibers < 2 ^ 60
    → reserve no_run overflowed too_long c f run ≡ run
unfolding reserve
reserve-fits no_run overflowed too_long count fibers c f run cnt fibs bound =
    let size : c *ℤ f ≡ pos (count * fibers) = rw (cnt, fibs) (product count fibers) in
    let small : ltb (2 ^ 60 - 1) (count * fibers) ≡ false = ground (arith, bound) in
    let in_range : is_i64 (pos (count * fibers)) ≡ true = ground (arith, bound) in
    rw (size, in_range, small) refl
