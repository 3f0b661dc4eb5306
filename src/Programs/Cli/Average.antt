-- ===== src/Programs/Cli/Average.antt =====
-- The average that src/cli.cc prints.
use native.Mathlib.Nat.{div-div-eq-div-mul, mul_comm}
use hnet.Prelude.{
  List-cases, ℕ, suc, ◌*◌, ◌/◌, ◌^◌, ◌<◌, ◌≡◌, refl, sym, ap, subst, ◌∙◌, List, ◌∷◌, some, length,
  inl, inr, arith,
}
use hnet.Prelude.Int.{pos, tdiv}
use hnet.Five.Time.{Duration, micros}
use hnet.Programs.Client.{cut_warmup}
use hnet.Programs.Report.{Report, accumulate, divide, report}
use hnet.Programs.Report.Range.{
  All, IsWithin, Sorts, accumulate-within, last_of, at_last, positive, report_of,
}
use hnet.Programs.Cli.{cli_report}

-- Microseconds can be taken of the sum or of the average.
div_comm : (b k n : ℕ) → b / k / n ≡ b / n / k
div_comm b k n =
    div-div-eq-div-mul b k n ∙ ap (λ m. b / m) (mul_comm k n) ∙ sym (div-div-eq-div-mul b n k)

micros_pos : (b : ℕ) → micros (pos b) ≡ pos (b / 1_000)
unfolding micros tdiv
micros_pos b = ground arith

cli_report_of :
    (sort : List Duration → List Duration) (recorded : List Duration) (d : Duration)
    (ds : List Duration) (s : Duration) (b : ℕ)
    → sort (cut_warmup recorded) ≡ d ∷ ds
    → accumulate (record { nanos = pos 0 }) (d ∷ ds) ≡ some s
    → s.nanos ≡ pos b
    → cli_report sort recorded
      ≡ some (record { min = d; max = last_of d ds; avg = b / 1_000 / suc (length ds) })
unfolding cli_report divide
cli_report_of sort recorded d ds s b e sum value =
    rw (e, at_last d ds, sum, value, positive (length ds), micros_pos b) refl

both_reports :
    (sort : List Duration → List Duration) (bound : ℕ) (recorded : List Duration) (d : Duration)
    (ds : List Duration)
    → sort (cut_warmup recorded) ≡ d ∷ ds
    → All (IsWithin 0 bound) (d ∷ ds)
    → bound * length (d ∷ ds) < 2 ^ 63
    → (r : Report) × (report sort recorded ≡ some r)
      × (cli_report sort recorded ≡ some (record r { avg = r.avg / 1_000 }))
both_reports sort bound recorded d ds e within small =
    let (s, b, sum, value, low, high) =
      accumulate-within 0 bound 0 (record { nanos = pos 0 }) (d ∷ ds) refl within (omega arith) in
    let n = suc (length ds) in
    (
      record { min = d; max = last_of d ds; avg = b / n },
      report_of sort recorded d ds s b e sum value,
      cli_report_of sort recorded d ds s b e sum value
          ∙ ap (λ a. some (record { min = d; max = last_of d ds; avg = a })) (div_comm b 1_000 n),
    )

-- For at least one timing after the warm-up, none of them negative or so large that their sum is
-- past an `i64`, the report of src/cli.cc is that of src/infallible_udp.cc with the average cut to
-- whole microseconds, which it computes in the other order.
pub cli_report-report :
    (sort : List Duration → List Duration) (bound : ℕ) (recorded : List Duration)
    → Sorts sort
    → All (IsWithin 0 bound) (cut_warmup recorded)
    → 0 < length (cut_warmup recorded)
    → bound * length (cut_warmup recorded) < 2 ^ 63
    → (r : Report) × (report sort recorded ≡ some r)
      × (cli_report sort recorded ≡ some (record r { avg = r.avg / 1_000 }))
cli_report-report sort bound recorded laws within nonempty small =
    let len = laws.length-sort (cut_warmup recorded) in
    elim (List-cases (sort (cut_warmup recorded))) [
      | inl e ↦ absurd (omega (arith, ap length e, len, nonempty))
      | inr (d, ds, e) ↦
          both_reports sort bound recorded d ds e
            (subst (All (IsWithin 0 bound)) e
              (laws.keeps (IsWithin 0 bound) (cut_warmup recorded) within))
            (subst (λ n. bound * n < 2 ^ 63) (omega (arith, ap length e, len)) small)
    ]
