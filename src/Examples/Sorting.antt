-- ===== src/Examples/Sorting.antt =====
-- A concrete `std::sort`.
use hnet.Prelude.{
  suc, ap, ◌∙◌, Bool, true, false, ◌≡◌, refl, List, [], ◌∷◌, length, if◌then◌else◌, arith,
}
use hnet.Prelude.Int.{leb_ℤ, ◌≤ℤ◌}
use hnet.Five.Time.{Duration}
use hnet.Programs.Report.Range.{All, IsAscending, Sorts}

-- Insertion into an ascending list.
abbrev insert : Duration → List Duration → List Duration
insert d [] = d ∷ []
insert d (e ∷ ds) = if leb_ℤ d.nanos e.nanos then d ∷ e ∷ ds else e ∷ insert d ds

abbrev pub sort : List Duration → List Duration
sort [] = []
sort (d ∷ ds) = insert d (sort ds)

by_test :
    (b : Bool) (Q : List Duration → Type 0) {xs ys : List Duration}
    → (b ≡ true → Q xs)
    → (b ≡ false → Q ys)
    → Q (if b then xs else ys)
by_test true Q in_then in_else = in_then refl
by_test false Q in_then in_else = in_else refl

All-insert :
    (P : Duration → Type 0) (d : Duration) (ds : List Duration)
    → P d
    → All P ds
    → All P (insert d ds)
All-insert P d [] p ps = (p, ps)
All-insert P d (e ∷ ds) p (q, ps) =
    by_test (leb_ℤ d.nanos e.nanos) (All P) (λ h. (p, (q, ps))) (λ h. (q, All-insert P d ds p ps))

All-sort : (P : Duration → Type 0) (ds : List Duration) → All P ds → All P (sort ds)
All-sort P [] ps = ps
All-sort P (d ∷ ds) (p, ps) = All-insert P d (sort ds) p (All-sort P ds ps)

length-insert : (d : Duration) (ds : List Duration) → length (insert d ds) ≡ suc (length ds)
length-insert d [] = refl
length-insert d (e ∷ ds) =
    by_test (leb_ℤ d.nanos e.nanos) (λ xs. length xs ≡ suc (suc (length ds))) (λ h. refl)
      (λ h. ap suc (length-insert d ds))

length-sort : (ds : List Duration) → length (sort ds) ≡ length ds
length-sort [] = refl
length-sort (d ∷ ds) = length-insert d (sort ds) ∙ ap suc (length-sort ds)

below-All :
    (d e : Duration) (ds : List Duration)
    → d.nanos ≤ℤ e.nanos
    → All (λ f. e.nanos ≤ℤ f.nanos) ds
    → All (λ f. d.nanos ≤ℤ f.nanos) ds
below-All d e [] h above = tt
below-All d e (f ∷ ds) h (first, above) = (omega arith, below-All d e ds h above)

insert-IsAscending :
    (d : Duration) (ds : List Duration) → IsAscending ds → IsAscending (insert d ds)
insert-IsAscending d [] sorted = (tt, tt)
insert-IsAscending d (e ∷ ds) (above, sorted) =
    by_test (leb_ℤ d.nanos e.nanos) IsAscending
      (λ h. ((ground arith, below-All d e ds (ground arith) above), (above, sorted)))
      (λ h. (
        All-insert (λ f. e.nanos ≤ℤ f.nanos) d ds (ground arith) above,
        insert-IsAscending d ds sorted,
      ))

sort-IsAscending : (ds : List Duration) → IsAscending (sort ds)
sort-IsAscending [] = tt
sort-IsAscending (d ∷ ds) = insert-IsAscending d (sort ds) (sort-IsAscending ds)

pub sort-Sorts : Sorts sort
sort-Sorts = record {
  keeps = All-sort;
  length-sort = length-sort;
  sort-IsAscending = sort-IsAscending;
}
