-- ===== src/Programs/Report/Warmup.antt =====
-- What the reversal of the records and the cut of the first ones keep.
use mathlib.Core.List.{reverse, reverse_aux}
use hnet.Prelude.{
  if◌then◌else◌, ◌-◌, ℕ, zero, suc, ◌+◌, ◌*◌, ◌^◌, some, ◌<◌, ◌≤◌, ◌≡◌, List, [], ◌∷◌, length, drop,
  length-drop, ltb→lt, ltb, Bool-cases, inl, inr, arith,
}
use hnet.Five.Time.{Duration}
use hnet.Prelude.Int.{pos}
use hnet.Programs.Report.{Report, report}
use hnet.Programs.Client.{cut_warmup}
use hnet.Programs.Report.Range.{All, IsWithin, Sorts, report-ordered}

All-reverse_aux :
    (P : Duration → Type 0) (ds acc : List Duration)
    → All P ds
    → All P acc
    → All P (reverse_aux ds acc)
All-reverse_aux P [] acc all rest = rest
All-reverse_aux P (d ∷ ds) acc (h, all) rest = All-reverse_aux P ds (d ∷ acc) all (h, rest)

length-reverse_aux : (ds acc : List Duration) → length (reverse_aux ds acc) ≡ length ds + length acc
length-reverse_aux [] acc = omega arith
length-reverse_aux (d ∷ ds) acc = omega (arith, length-reverse_aux ds (d ∷ acc))

All-drop : (P : Duration → Type 0) (n : ℕ) (ds : List Duration) → All P ds → All P (drop n ds)
All-drop P zero ds all = all
All-drop P (suc n) [] all = all
All-drop P (suc n) (d ∷ ds) (h, all) = All-drop P n ds all

All-cut_warmup : (P : Duration → Type 0) (ds : List Duration) → All P ds → All P (cut_warmup ds)
unfolding cut_warmup
All-cut_warmup P ds all = elim (Bool-cases (ltb 1_000 (length ds))) [
  | inl many ↦ rw (many) (All-drop P 1_000 ds all)
  | inr few ↦ rw (few) all
]

-- The cut leaves something, and adds nothing.
drop_some :
    (k : ℕ) (ds : List Duration)
    → k < length ds
    → (0 < length (drop k ds)) × (length (drop k ds) ≤ length ds)
drop_some k ds more = (omega (arith, length-drop k ds), omega (arith, length-drop k ds))

length-cut_warmup :
    (ds : List Duration)
    → 0 < length ds
    → (0 < length (cut_warmup ds)) × (length (cut_warmup ds) ≤ length ds)
unfolding cut_warmup
length-cut_warmup ds some_left = elim (Bool-cases (ltb 1_000 (length ds))) [
  | inl many ↦ rw (many) (drop_some 1_000 ds (ltb→lt 1_000 (length ds) many))
  | inr few ↦ rw (few) (some_left, omega arith)
]

product_less : (bound n k : ℕ) → bound * n < 2 ^ 63 → k ≤ n → bound * k < 2 ^ 63
product_less bound n k h l = grind arith

-- Timings that were recorded, the latest at the head, are fit to be reported.
pub cut_warmup-reverse :
    (bound : ℕ) (timings : List Duration)
    → All (IsWithin 0 bound) timings
    → 0 < length timings
    → bound * length timings < 2 ^ 63
    → All (IsWithin 0 bound) (cut_warmup (reverse timings))
      × (0 < length (cut_warmup (reverse timings)))
      × (bound * length (cut_warmup (reverse timings)) < 2 ^ 63)
cut_warmup-reverse bound timings within some_left small =
    let same = length-reverse_aux timings [] in
    let (left, fewer) = length-cut_warmup (reverse timings) (omega (arith, same)) in
    (
      All-cut_warmup (IsWithin 0 bound) (reverse timings)
          (All-reverse_aux (IsWithin 0 bound) timings [] within tt),
      left,
      product_less bound (length timings) (length (cut_warmup (reverse timings))) small
          (omega (arith, same, fewer)),
    )

-- How many are left of a number of records.
abbrev pub cut_count : ℕ → ℕ
cut_count n = if ltb 1_000 n then n - 1_000 else n

pub cut_count_lem :
    (timings : List Duration) → length (cut_warmup (reverse timings)) ≡ cut_count (length timings)
unfolding cut_warmup
cut_count_lem timings =
    let same : length (reverse timings) ≡ length timings =
      omega (arith, length-reverse_aux timings []) in
    elim (Bool-cases (ltb 1_000 (length timings))) [
      | inl many ↦ rw (same, many) (omega (arith, length-drop 1_000 (reverse timings), same))
      | inr few ↦ rw (same, few) same
    ]

-- The report of timings that were recorded, the latest at the head.
pub report-reverse :
    (sort : List Duration → List Duration) (bound : ℕ) (timings : List Duration)
    → Sorts sort
    → All (IsWithin 0 bound) timings
    → 0 < length timings
    → bound * length timings < 2 ^ 63
    → (r : Report) × (report sort (reverse timings) ≡ some r)
      × (lo hi : ℕ) × (r.min.nanos ≡ pos lo)
      × (r.max.nanos ≡ pos hi)
      × (lo ≤ r.avg)
      × (r.avg ≤ hi)
report-reverse sort bound timings laws within some_left small =
    let (fit, left, sum) = cut_warmup-reverse bound timings within some_left small in
    report-ordered sort bound (reverse timings) laws fit left sum
