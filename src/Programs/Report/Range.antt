-- ===== src/Programs/Report/Range.antt =====
-- The average is between the smallest and the largest timing.
use hnet.Prelude.{
  List-cases, ℕ, suc, ◌+◌, ◌-◌, ◌*◌, ◌/◌, ◌^◌, ◌<◌, ◌≤◌, ◌≡◌, refl, ap, subst, List, [], ◌∷◌, none,
  some, length, get_elem?, arith, ◌==◌, false, inl, inr,
}
use hnet.Prelude.Int.{ℤ, pos, pos_part, neg_part, ◌+ℤ◌, ◌≤ℤ◌}
use hnet.Five.Time.{Duration, add_durations}
use native.Mathlib.Nat.{mul_comm, le-div_iff_mul-le, div-le_of_le-mul}
use hnet.Programs.Client.{cut_warmup}
use hnet.Programs.Report.{Report, accumulate, divide, report}

abbrev pub All : (Duration → Type 0) → List Duration → Type 0
All P [] = Unit {0}
All P (d ∷ ds) = P d × All P ds

-- The nanoseconds are not negative, and from `lo` to `hi`.
abbrev pub IsWithin : ℕ → ℕ → Duration → Type 0
IsWithin lo hi d = (n : ℕ) × (d.nanos ≡ pos n) × (lo ≤ n) × (n ≤ hi)

abbrev pub IsAscending : List Duration → Type 0
IsAscending [] = Unit {0}
IsAscending (d ∷ ds) = All (λ e. d.nanos ≤ℤ e.nanos) ds × IsAscending ds

-- `std::sort`: the same timings in ascending order.
pub record Sorts (sort : List Duration → List Duration) : Type 1 where
  pub keeps : (P : Duration → Type 0) (ds : List Duration) → All P ds → All P (sort ds)
  pub length-sort : (ds : List Duration) → length (sort ds) ≡ length ds
  pub sort-IsAscending : (ds : List Duration) → IsAscending (sort ds)

add_pos :
    (a n : ℕ) (total d : Duration)
    → total.nanos ≡ pos a
    → d.nanos ≡ pos n
    → a + n < 2 ^ 63
    → (s : Duration) × (add_durations total d ≡ some s) × (s.nanos ≡ pos (a + n))
unfolding add_durations ◌+ℤ◌
add_pos a n total d e f small = (record { nanos = pos (a + n) }, ground arith, refl)

wider : (a n hi len : ℕ) → a + hi * suc len < 2 ^ 63 → n ≤ hi → a + n < 2 ^ 63
wider a n hi len h l = grind arith

shorter : (a n hi len : ℕ) → a + hi * suc len < 2 ^ 63 → n ≤ hi → a + n + hi * len < 2 ^ 63
shorter a n hi len h l = grind arith

more : (a n b len k hi : ℕ) → a + n + k * len ≤ b → k ≤ n → a + k * suc len ≤ b
more a n b len k hi h l = grind arith

less : (a n b len k : ℕ) → b ≤ a + n + k * len → n ≤ k → b ≤ a + k * suc len
less a n b len k h l = grind arith

-- A sum of `n` timings does not overflow when they are small, and is from `n * lo` to `n * hi`.
pub accumulate-within :
    (lo hi a : ℕ) (total : Duration) (ds : List Duration)
    → total.nanos ≡ pos a
    → All (IsWithin lo hi) ds
    → a + hi * length ds < 2 ^ 63
    → (s : Duration) × (b : ℕ) × (accumulate total ds ≡ some s)
      × (s.nanos ≡ pos b)
      × (a + lo * length ds ≤ b)
      × (b ≤ a + hi * length ds)
unfolding accumulate
accumulate-within lo hi a total [] e within small = (total, a, refl, e, omega arith, omega arith)
accumulate-within lo hi a total (d ∷ ds) e ((n, f, low, high), within) small =
    let (total', fits, e') = add_pos a n total d e f (wider a n hi (length ds) small high) in
    let (s, b, done, sum, above, below) =
      accumulate-within lo hi (a + n) total' ds e' within (shorter a n hi (length ds) small high) in
    (
      s,
      b,
      rw (fits) (done),
      sum,
      more a n b (length ds) lo hi above low,
      less a n b (length ds) hi below high,
    )

div-within : (lo hi b n : ℕ) → 0 < n → 0 + lo * n ≤ b → b ≤ 0 + hi * n → (lo ≤ b / n) × (b / n ≤ hi)
div-within lo hi b n h l k =
    ((le-div_iff_mul-le h).1 (omega arith), div-le_of_le-mul n (omega (arith, mul_comm hi n)))

abbrev pub last_of : Duration → List Duration → Duration
last_of d [] = d
last_of d (e ∷ ds) = last_of e ds

pub get_elem?-last_of :
    (d : Duration) (ds : List Duration) → get_elem? (d ∷ ds) (length ds) ≡ some (last_of d ds)
get_elem?-last_of d [] = refl
get_elem?-last_of d (e ∷ ds) = get_elem?-last_of e ds

pos_le : {x y : ℤ} {a b : ℕ} → x ≡ pos a → y ≡ pos b → x ≤ℤ y → a ≤ b
pos_le e f h = omega (arith, ap pos_part e, ap pos_part f, ap neg_part e, ap neg_part f)

-- The last timing bounds an ascending list.
IsWithin-last :
    (lo bound : ℕ) (d : Duration) (ds : List Duration)
    → All (IsWithin lo bound) (d ∷ ds)
    → IsAscending (d ∷ ds)
    → (hi : ℕ) × ((last_of d ds).nanos ≡ pos hi) × (hi ≤ bound) × All (IsWithin lo hi) (d ∷ ds)
IsWithin-last lo bound d [] ((n, e, l, k), u) sorted = (n, e, k, ((n, e, l, omega arith), u))
IsWithin-last lo bound d (f ∷ ds) ((n, e, l, k), rest) ((first, others), sorted) =
    let (hi, last, fits, ((m, e', l', k'), within)) = IsWithin-last lo bound f ds rest sorted in
    (hi, last, fits, ((n, e, l, omega (arith, pos_le e e' first)), ((m, e', l', k'), within)))

-- The first timing is the least.
IsWithin-first :
    (lo bound : ℕ) (d : Duration) (ds : List Duration)
    → d.nanos ≡ pos lo
    → All (IsWithin 0 bound) ds
    → All (λ e. d.nanos ≤ℤ e.nanos) ds
    → All (IsWithin lo bound) ds
IsWithin-first lo bound d [] e within sorted = within
IsWithin-first lo bound d (f ∷ ds) e ((n, e', l, k), rest) (first, others) =
    ((n, e', pos_le e e' first, k), IsWithin-first lo bound d ds e rest others)

narrower : (hi bound len : ℕ) → hi ≤ bound → bound * len < 2 ^ 63 → 0 + hi * len < 2 ^ 63
narrower hi bound len h l = grind arith

pub at_last :
    (d : Duration) (ds : List Duration)
    → get_elem? (d ∷ ds) (suc (length ds) - 1) ≡ some (last_of d ds)
at_last d ds =
    subst (λ i. get_elem? (d ∷ ds) i ≡ some (last_of d ds)) (omega arith) (get_elem?-last_of d ds)

pub positive : (n : ℕ) → (suc n == 0) ≡ false
positive n = ground arith

pub report_of :
    (sort : List Duration → List Duration) (recorded : List Duration) (d : Duration)
    (ds : List Duration) (s : Duration) (b : ℕ)
    → sort (cut_warmup recorded) ≡ d ∷ ds
    → accumulate (record { nanos = pos 0 }) (d ∷ ds) ≡ some s
    → s.nanos ≡ pos b
    → report sort recorded
      ≡ some (record { min = d; max = last_of d ds; avg = b / suc (length ds) })
unfolding report divide
report_of sort recorded d ds s b e sum value =
    rw (e, sum, value, at_last d ds, positive (length ds)) refl

report_sorted :
    (sort : List Duration → List Duration) (bound : ℕ) (recorded : List Duration) (d : Duration)
    (ds : List Duration)
    → sort (cut_warmup recorded) ≡ d ∷ ds
    → All (IsWithin 0 bound) (d ∷ ds)
    → IsAscending (d ∷ ds)
    → bound * length (d ∷ ds) < 2 ^ 63
    → (r : Report) × (report sort recorded ≡ some r)
      × (lo hi : ℕ) × (r.min.nanos ≡ pos lo)
      × (r.max.nanos ≡ pos hi)
      × (lo ≤ r.avg)
      × (r.avg ≤ hi)
report_sorted sort bound recorded d ds e ((lo, first, _, k), within) (above, sorted) small =
    let from_first : All (IsWithin lo bound) (d ∷ ds) =
      ((lo, first, omega arith, k), IsWithin-first lo bound d ds first within above) in
    let (hi, last, fits, both) = IsWithin-last lo bound d ds from_first (above, sorted) in
    let (s, b, sum, value, low, high) =
      accumulate-within lo hi 0 (record { nanos = pos 0 }) (d ∷ ds) refl both
        (narrower hi bound (suc (length ds)) fits small) in
    let (below, top) = div-within lo hi b (suc (length ds)) (omega arith) low high in
    (
      record { min = d; max = last_of d ds; avg = b / suc (length ds) },
      report_of sort recorded d ds s b e sum value,
      lo,
      hi,
      first,
      last,
      below,
      top,
    )

-- For at least one timing after the warm-up, none of them negative or so large that their sum is
-- past an `i64`, there is a report, and its average is from its smallest to its largest timing.
pub report-ordered :
    (sort : List Duration → List Duration) (bound : ℕ) (recorded : List Duration)
    → Sorts sort
    → All (IsWithin 0 bound) (cut_warmup recorded)
    → 0 < length (cut_warmup recorded)
    → bound * length (cut_warmup recorded) < 2 ^ 63
    → (r : Report) × (report sort recorded ≡ some r)
      × (lo hi : ℕ) × (r.min.nanos ≡ pos lo)
      × (r.max.nanos ≡ pos hi)
      × (lo ≤ r.avg)
      × (r.avg ≤ hi)
report-ordered sort bound recorded laws within nonempty small =
    let len = laws.length-sort (cut_warmup recorded) in
    elim (List-cases (sort (cut_warmup recorded))) [
      | inl e ↦ absurd (omega (arith, ap length e, len, nonempty))
      | inr (d, ds, e) ↦
          report_sorted sort bound recorded d ds e
            (subst (All (IsWithin 0 bound)) e
              (laws.keeps (IsWithin 0 bound) (cut_warmup recorded) within))
            (subst IsAscending e (laws.sort-IsAscending (cut_warmup recorded)))
            (subst (λ n. bound * n < 2 ^ 63) (omega (arith, ap length e, len)) small)
    ]

-- No timing is left, as when every packet is dead: the average is a division by 0.
pub report-empty :
    (sort : List Duration → List Duration) (recorded : List Duration)
    → Sorts sort
    → cut_warmup recorded ≡ []
    → report sort recorded ≡ none
unfolding report divide accumulate
report-empty sort recorded laws e = elim (List-cases (sort (cut_warmup recorded))) [
  | inl e' ↦ rw (e') refl
  | inr (d, ds, e') ↦
      absurd (omega (arith, ap length e, ap length e', laws.length-sort (cut_warmup recorded)))
]
