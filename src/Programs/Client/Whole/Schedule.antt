-- ===== src/Programs/Client/Whole/Schedule.antt =====
-- src/infallible_udp.cc: how many turns the fibers have together.
use hnet.Prelude.{ℕ, zero, suc, ◌+◌, ◌*◌, ◌<◌, ◌≤◌, ◌≡◌, refl, List, [], ◌∷◌, length, dec_lt, arith}
use hnet.Programs.Client.{Reply}
use hnet.Programs.Client.Fibers.Interleaving.{replies_to}

-- How many rounds all fibers have had.
abbrev sum_to : ℕ → (ℕ → ℕ) → ℕ
sum_to zero f = 0
sum_to (suc n) f = sum_to n f + f n

abbrev rounds_in : List (ℕ × Reply) → ℕ → ℕ
rounds_in turns i = length (replies_to i turns)

sum_to-zero : (k : ℕ) (f : ℕ → ℕ) → ((i : ℕ) → f i ≡ 0) → sum_to k f ≡ 0
sum_to-zero zero f empty = refl
sum_to-zero (suc k) f empty = omega (arith, empty k, sum_to-zero k f empty)

sum_to_same : (k r : ℕ) (f : ℕ → ℕ) → ((i : ℕ) → i < k → f i ≡ r) → sum_to k f ≡ k * r
sum_to_same zero r f each = omega arith
sum_to_same (suc k) r f each =
    grind (arith, each k (omega arith), sum_to_same k r f (λ i below. each i (omega arith)))

-- A turn adds one round to its fiber.
rounds_in_later :
    (thr k : ℕ) (e : Reply) (turns : List (ℕ × Reply))
    → k ≤ thr
    → sum_to k (rounds_in ((thr, e) ∷ turns)) ≡ sum_to k (rounds_in turns)
rounds_in_later thr zero e turns after = refl
rounds_in_later thr (suc k) e turns after =
    ground (arith, rounds_in_later thr k e turns (omega arith))

rounds_in_more :
    (thr k : ℕ) (e : Reply) (turns : List (ℕ × Reply))
    → thr < k
    → sum_to k (rounds_in ((thr, e) ∷ turns)) ≡ suc (sum_to k (rounds_in turns))
rounds_in_more thr zero e turns below = absurd (omega arith)
rounds_in_more thr (suc k) e turns below = elim (dec_lt thr k) [
  | yes before ↦ ground (arith, rounds_in_more thr k e turns before)
  | no last ↦ ground (arith, rounds_in_later thr k e turns (omega arith))
]

abbrev pub AllTurns : (ℕ → Type 0) → List (ℕ × Reply) → Type 0
AllTurns P [] = Unit {0}
AllTurns P ((thr, e) ∷ turns) = P thr × AllTurns P turns

-- Each of the first `k` fibers has had as many rounds as its loop has.
abbrev pub IsSchedule : ℕ → ℕ → List (ℕ × Reply) → Type 0
IsSchedule k r turns =
    AllTurns (λ thr. thr < k) turns × ((i : ℕ) → i < k → length (replies_to i turns) ≡ r)

length-turns :
    (k : ℕ) (turns : List (ℕ × Reply))
    → AllTurns (λ thr. thr < k) turns
    → sum_to k (rounds_in turns) ≡ length turns
length-turns k [] all = sum_to-zero k (rounds_in []) (λ i. refl)
length-turns k ((thr, e) ∷ turns) (below, all) =
    omega (arith, rounds_in_more thr k e turns below, length-turns k turns all)

-- All have as many turns as there are fibers times rounds.
pub length-IsSchedule :
    (k r : ℕ) (turns : List (ℕ × Reply)) → IsSchedule k r turns → length turns ≡ k * r
length-IsSchedule k r turns (all, each) =
    omega (arith, length-turns k turns all, sum_to_same k r (rounds_in turns) each)
