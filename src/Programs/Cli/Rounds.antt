-- ===== src/Programs/Cli/Rounds.antt =====
-- What a fiber of src/cli.cc records.
use hnet.Prelude.{
  ◌≢◌, ℕ, zero, suc, ◌+◌, ◌-◌, ◌*◌, ◌^◌, ◌<◌, ◌≤◌, ◌≡◌, refl, sym, ap, ◌∙◌, ◌⊎◌, inl, inr, Bool,
  true, false, List, [], ◌∷◌, ◌++◌, some, leb, length, length-append, get_elem?, arith,
  Option-cases, Bool-cases,
}
use native.Mathlib.Nat.{pow-succ'}
use hnet.Prelude.Int.{pos, ◌+ℤ◌}
use hnet.Prelude.Results.{ok, Result-cases}
use hnet.Five.Time.{Duration, sub_instants}
use hnet.Five.Time.Arithmetic.{sub_instants_later, sub_instants-nanos}
use hnet.Programs.Client.{same_bytes, Reply, data_expected}
use hnet.Programs.Client.Fiber.{total, regroup, telescope, same_bytes-eq, same_bytes_refl}
use hnet.Programs.Cli.{doubled, CliFiber, cli_step, cli_loop}

-- None of the first `k` replies is the configured text.
abbrev pub NoneMatches : List ℕ → ℕ → List Reply → Type 0
NoneMatches configured zero es = Unit {0}
NoneMatches configured (suc k) [] = ⊥
NoneMatches configured (suc k) (e ∷ es) = (e.result.buf ≢ configured) × NoneMatches configured k es

pub differs-ne : (xs ys : List ℕ) → same_bytes xs ys ≡ false → xs ≢ ys
differs-ne xs ys differs same =
    ground (arith, sym (same_bytes_refl xs) ∙ ap (same_bytes xs) same ∙ differs)

-- A round ends the fiber at a reply that is the configured text, or records the time since its start.
cli_step-cases :
    (configured : List ℕ) (c c' : CliFiber) (e : Reply) (goes_on : Bool)
    → cli_step configured c e ≡ ok (goes_on, c')
    → ((goes_on ≡ false) × (c' ≡ c) × (e.result.buf ≡ configured))
      ⊎ ((goes_on ≡ true)
          × (e.result.buf ≢ configured)
          × (length c'.timings ≡ suc (length c.timings))
          × (total c'.timings +ℤ c.start.nanos ≡ total c.timings +ℤ c'.start.nanos))
unfolding cli_step
cli_step-cases configured c c' e goes_on done = elim (Option-cases (sub_instants e.now c.start)) [
  | inl wide ↦
      ground
        (arith, wide, same_bytes-eq e.result.buf configured, differs-ne e.result.buf configured)
  | inr (took, fits) ↦ ground (
    arith,
    fits,
    same_bytes-eq e.result.buf configured,
    differs-ne e.result.buf configured,
    regroup took.nanos (total c.timings) c.start.nanos e.now.nanos
        (sub_instants-nanos e.now c.start took fits),
  )
]

-- A fiber that does not throw records a timing for each of its first rounds, none of whose replies is
-- the configured text: up to the first round whose reply is that text, or through all rounds. The
-- timings add up to the time from its start to the last of those rounds.
pub cli_loop-records :
    (configured : List ℕ) (es : List Reply) (c c' : CliFiber)
    → cli_loop configured c es ≡ ok c'
    → (k : ℕ) × (length c'.timings ≡ length c.timings + k)
      × (total c'.timings +ℤ c.start.nanos ≡ total c.timings +ℤ c'.start.nanos)
      × NoneMatches configured k es
      × ((k ≡ length es) ⊎ ((e : Reply) × (get_elem? es k ≡ some e) × (e.result.buf ≡ configured)))
unfolding cli_loop
cli_loop-records configured [] c c' done = (0, ground arith, ground arith, tt, inl refl)
cli_loop-records configured (e ∷ es) c c' done = elim (Result-cases (cli_step configured c e)) [
  | inr (x, failed) ↦ absurd (ground (arith, failed))
  | inl ((goes_on, d), stepped) ↦ elim (cli_step-cases configured c d e goes_on stepped) [
    | inl (ended, same, matches) ↦
        let stop : c' ≡ c = ground (arith, stepped, ended, same) in
        (0, rw (stop) (omega arith), rw (stop) refl, tt, inr (e, refl, matches))
    | inr (on, other, more, sum) ↦
        let rest : cli_loop configured d es ≡ ok c' = ground (arith, stepped, on) in
        let (k, count, time, none_matches, why) = cli_loop-records configured es d c' rest in
        (
          suc k,
          omega (arith, count, more),
          telescope (total c.timings) (total d.timings) (total c'.timings) c.start.nanos
              d.start.nanos c'.start.nanos sum time,
          (other, none_matches),
          elim why [ inl all ↦ inl (ap suc all) | inr reply ↦ inr reply ],
        )
  ]
]

double : (a b : ℕ) → a * (b + b) ≡ 2 * a * b
double a b = grind arith

pub length-doubled : (k : ℕ) (xs : List ℕ) → length (doubled k xs) ≡ 2 ^ k * length xs
length-doubled zero xs = omega arith
length-doubled (suc k) xs =
    length-doubled k (xs ++ xs)
    ∙ ap (λ n. 2 ^ k * n) (length-append xs xs)
    ∙ double (2 ^ k) (length xs)
    ∙ ap (λ n. n * length xs) (sym (pow-succ' 2 k))

-- Each round sends something, the clock does not go back, and the reply is the echo of the server,
-- which repeats what it was sent.
abbrev pub Echoes : List ℕ → ℕ → List Reply → Type 0
Echoes configured s [] = Unit {0}
Echoes configured s (e ∷ es) =
    (n t : ℕ) × (e.send_res ≡ pos (suc n))
    × (e.now.nanos ≡ pos t)
    × (s ≤ t)
    × (t < 2 ^ 63)
    × (e.result.buf ≡ data_expected (doubled 10 configured))
    × Echoes configured t es

echo_differs :
    (configured : List ℕ)
    → 0 < length configured
    → same_bytes (data_expected (doubled 10 configured)) configured ≡ false
echo_differs configured some_bytes =
    elim (Bool-cases (same_bytes (data_expected (doubled 10 configured)) configured)) [
      | inr differs ↦ differs
      | inl same ↦ absurd (
          omega (
            arith,
            ap length (same_bytes-eq (data_expected (doubled 10 configured)) configured same),
            length-append (doubled 10 configured) (doubled 10 configured),
            length-doubled 10 configured,
          ))
    ]

pub echo_step :
    (configured : List ℕ) (c : CliFiber) (e : Reply) (took : Duration) (n : ℕ)
    → 0 < length configured
    → e.send_res ≡ pos (suc n)
    → e.result.buf ≡ data_expected (doubled 10 configured)
    → sub_instants e.now c.start ≡ some took
    → cli_step configured c e ≡ ok (true, record { start = e.now; timings = took ∷ c.timings })
unfolding cli_step
echo_step configured c e took n nonempty sent echo fits =
    let positive : leb (suc n + 0) 0 ≡ false = ground arith in
    rw (sent, echo, echo_differs configured nonempty, fits, positive) refl

-- Against the echo server a fiber whose configured text is not empty gets through all rounds, and
-- has a timing for each.
pub cli_loop-Echoes :
    (configured : List ℕ) (es : List Reply) (c : CliFiber) (s : ℕ)
    → 0 < length configured
    → c.start.nanos ≡ pos s
    → Echoes configured s es
    → (c' : CliFiber) × (cli_loop configured c es ≡ ok c')
      × (length c'.timings ≡ length c.timings + length es)
      × (total c'.timings +ℤ c.start.nanos ≡ total c.timings +ℤ c'.start.nanos)
unfolding cli_loop
cli_loop-Echoes configured [] c s nonempty start echoes = (c, refl, omega arith, refl)
cli_loop-Echoes configured (e ∷ es) c s nonempty start
      (n, t, sent, now, later, fits, echo, echoes) =
    let took : Duration = record { nanos = pos (t - s) } in
    let d : CliFiber = record { start = e.now; timings = took ∷ c.timings } in
    let stepped =
      echo_step configured c e took n nonempty sent echo
        (sub_instants_later e.now c.start s t start now later fits) in
    let (c', done, count, time) = cli_loop-Echoes configured es d t nonempty now echoes in
    (
      c',
      rw (stepped, cli_loop) done,
      omega (arith, count),
      telescope (total c.timings) (total d.timings) (total c'.timings) c.start.nanos d.start.nanos
          c'.start.nanos
          (regroup took.nanos (total c.timings) c.start.nanos e.now.nanos (
            sub_instants-nanos e.now c.start took
              (sub_instants_later e.now c.start s t start now later fits)))
          time,
    )
