-- ===== src/Programs/Joins.antt =====
-- The loops of src/infallible_udp.cc and src/cli.cc that spawn the fibers and count their rounds, and
-- the joins at their end. The turns are those of the fibers after their start, in the order in which
-- the scheduler gives them, up to the end of the run or to the first exception.
pub mod Complete
use hnet.Prelude.{
  ℕ, zero, suc, ◌-◌, ◌^◌, Bool, true, false, ◌&&◌, ◌||◌, List, [], ◌∷◌, Option, none, some, length,
  ltb, leb, ◌==◌, if◌then◌else◌,
}
use hnet.Prelude.Int.{ℤ, ◌*ℤ◌, is_i64}
use hnet.Prelude.Results.{Result, ok, err}
use hnet.Programs.Client.{Reply}
use hnet.Programs.Client.Fibers.Interleaving.{replies_to}
use hnet.Programs.Report.{to_u64}

unfoldable pub all_below : ℕ → (ℕ → Bool) → Bool
all_below zero p = true
all_below (suc n) p = p n && all_below n p

-- How many rounds a fiber has begun.
abbrev pub had : ℕ → List (ℕ × Reply) → ℕ
had thr turns = length (replies_to thr turns)

unfoldable pub are_spawned : ℕ → List (ℕ × Reply) → Bool
are_spawned fibers [] = true
are_spawned fibers ((thr, e) ∷ turns) = ltb thr fibers && are_spawned fibers turns

-- Turns that the loops can have: those of fibers that were spawned, each with `rounds` at most.
unfoldable pub in_loops : ℕ → ℕ → List (ℕ × Reply) → Bool
in_loops fibers rounds turns =
    are_spawned fibers turns && all_below fibers (λ thr. leb (had thr turns) rounds)

-- `int thr` and each `int i` stay below 2 ^ 31.
unfoldable pub counters_fit : ℕ → List (ℕ × Reply) → Bool
counters_fit fibers turns =
    ltb fibers (2 ^ 31) && all_below fibers (λ thr. ltb (had thr turns) (2 ^ 31))

-- All fibers have returned or have had all rounds, so that each `Join` returns.
unfoldable pub are_joined : ℕ → ℕ → (ℕ → Bool) → List (ℕ × Reply) → Bool
are_joined fibers rounds returned turns =
    all_below fibers (λ thr. returned thr || (had thr turns == rounds))

module _ {E A : Type 0} (no_run overflowed : E) where
  -- What a run gives: nothing when the turns are not those of a run, and the overflow when a counter
  -- passes the range of an `int`.
  unfoldable pub in_turns : ℕ → ℕ → List (ℕ × Reply) → Option (Result E A) → Option (Result E A)
  in_turns fibers rounds turns run =
      if in_loops fibers rounds turns
      then (if counters_fit fibers turns then run else some (err overflowed))
      else some (err no_run)

  unfoldable pub after_join :
      ℕ → ℕ → (ℕ → Bool) → List (ℕ × Reply) → Option (Result E A) → Option (Result E A)
  after_join fibers rounds returned turns run =
      if are_joined fibers rounds returned turns then run else some (err no_run)

  -- `timings.reserve(count * fibers)`: the product is an `i64` and the argument a `size_t`. More than
  -- `max_size` of durations of 8 bytes is a `length_error`.
  unfoldable pub reserve : E → ℤ → ℤ → Option (Result E A) → Option (Result E A)
  reserve too_long count fibers run =
      let size = count *ℤ fibers in
      if is_i64 size
      then (if ltb (2 ^ 60 - 1) (to_u64 size) then some (err too_long) else run)
      else some (err overflowed)
