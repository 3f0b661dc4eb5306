-- ===== src/Programs/Client/Fibers/Failures.antt =====
-- When the fibers together fail.
use hnet.Prelude.Int.{◌==ℤ◌}
use hnet.Prelude.{
  ◌≤◌, ◌⊎◌, ◌+◌, ◌^◌, ◌||◌, sym, ℕ, ◌≡◌, refl, subst, ap, ==_iff, ◌∙◌, inl, inr, List, [], ◌∷◌,
  none, some, Bool-cases, Option-cases, ◌==◌, if◌then◌else◌, arith,
}
use hnet.Prelude.Results.{ok, err, Result-cases}
use hnet.Five.Time.{Instant, sub_instants}
use hnet.Ring2.Errors.{Error, overflow, esqe_timeout, eintr}
use hnet.Programs.Client.{Client, Reply, client_step, client_loop}
use hnet.Programs.Client.Fibers.{Fibers, view_of_fiber, set_start, fiber_turn, run_fibers}
use hnet.Programs.Client.Fibers.Interleaving.{client_step-alone, turn-step, replies_to}

step-alone :
    (expected : List ℕ) (c c' own : Client) (e : Reply)
    → own.start ≡ c.start
    → own.dead_packets ≤ c.dead_packets
    → client_step expected c e ≡ ok c'
    → (own' : Client) × (client_step expected own e ≡ ok own')
      × (own'.start ≡ c'.start)
      × (own'.dead_packets ≤ c'.dead_packets)
step-alone expected c c' own e same fewer stepped =
    elim (client_step-alone expected c c' own e same fewer stepped) [
      | inl (alone, kept, more) ↦ (_, alone, refl, omega (arith, fewer, more))
      | inr (took, alone, more, kept) ↦ (_, alone, refl, omega (arith, fewer, kept))
    ]

-- The receive of the round timed out or was interrupted.
abbrev pub lost : Reply → ℕ
lost e = if e.result.ret ==ℤ esqe_timeout || e.result.ret ==ℤ eintr then 1 else 0

abbrev pub lost_in : List (ℕ × Reply) → ℕ
lost_in [] = 0
lost_in ((thr, e) ∷ turns) = lost e + lost_in turns

client_step-dead :
    (expected : List ℕ) (c c' : Client) (e : Reply)
    → client_step expected c e ≡ ok c'
    → c'.dead_packets ≡ c.dead_packets + lost e
unfolding client_step
client_step-dead expected c c' e stepped = ground arith

client_step-fails :
    (expected : List ℕ) (c own : Client) (e : Reply) (x : Error)
    → own.start ≡ c.start
    → own.dead_packets ≤ c.dead_packets
    → client_step expected c e ≡ err x
    → (client_step expected own e ≡ err x) ⊎ ((x ≡ overflow) × (2 ^ 31 ≤ c.dead_packets + lost e))
unfolding client_step
client_step-fails expected c own e x same fewer failed =
    elim (Option-cases (sub_instants e.now c.start)) [
      | inl wide ↦
          let wide' : sub_instants e.now own.start ≡ none = rw (same) wide in
          ground (arith, wide, wide')
      | inr (took, fits) ↦
          let fits' : sub_instants e.now own.start ≡ some took = rw (same) fits in
          ground (arith, fits, fits')
    ]

turn-fails :
    (expected : ℕ → List ℕ) (thr : ℕ) (e : Reply) (w : Fibers) (x : Error)
    → fiber_turn expected thr e w ≡ err x
    → client_step (expected thr) (view_of_fiber thr w) e ≡ err x
unfolding fiber_turn
turn-fails expected thr e w x failed =
    elim (Result-cases (client_step (expected thr) (view_of_fiber thr w) e)) [
      | inl (c, stepped) ↦ absurd (ground (arith, stepped))
      | inr (y, threw) ↦ ground (arith, threw)
    ]

abbrev replace : ℕ → Client → (ℕ → Client) → ℕ → Client
replace thr c owns i = if thr == i then c else owns i

replaced :
    (thr i : ℕ) (own c : Client) (owns : ℕ → Client) (starts : ℕ → Instant)
    → own.start ≡ c.start
    → (owns i).start ≡ starts i
    → (replace thr own owns i).start ≡ set_start thr c.start starts i
unfolding set_start
replaced thr i own c owns starts start same = elim (Bool-cases (thr == i)) [
  | inl mine ↦ rw (mine) start
  | inr apart ↦ rw (apart) same
]

-- Every fiber starts a round where the run has it, before and after a turn.
turn-starts :
    (expected : ℕ → List ℕ) (thr : ℕ) (e : Reply) (owns : ℕ → Client) (w w' : Fibers)
    → ((i : ℕ) → (owns i).start ≡ w.starts i)
    → ((i : ℕ) → (owns i).dead_packets ≤ w.dead_packets)
    → fiber_turn expected thr e w ≡ ok w'
    → (own : Client) × (client_step (expected thr) (owns thr) e ≡ ok own)
      × ((i : ℕ) → (replace thr own owns i).start ≡ w'.starts i)
      × ((i : ℕ) → (replace thr own owns i).dead_packets ≤ w'.dead_packets)
      × (w'.dead_packets ≡ w.dead_packets + lost e)
turn-starts expected thr e owns w w' same fewer turned =
    let (c, stepped, after) = turn-step expected thr e w w' turned in
    let (own, alone, start, still_fewer) =
      step-alone (expected thr) (view_of_fiber thr w) c (owns thr) e (same thr) (fewer thr)
        stepped in
    let counted = client_step-dead (expected thr) (view_of_fiber thr w) c e stepped in
    let kept : c.dead_packets ≡ w'.dead_packets = ap (λ (v : Fibers). v.dead_packets) after in
    (
      own,
      alone,
      (λ i. replaced thr i own c owns w.starts start (same i) ∙ ap (λ v. v.starts i) after),
      (λ i. elim (Bool-cases (thr == i)) [
        | inl mine ↦ rw (mine) (omega (arith, still_fewer, kept))
        | inr apart ↦ rw (apart) (omega (arith, fewer i, counted, kept))
      ]),
      sym kept ∙ counted,
    )

-- A fiber that fails alone after a turn fails alone with it.
later_fails :
    (expected : ℕ → List ℕ) (thr i : ℕ) (e : Reply) (turns : List (ℕ × Reply)) (owns : ℕ → Client)
    (own : Client) (x : Error)
    → client_step (expected thr) (owns thr) e ≡ ok own
    → client_loop (expected i) (replace thr own owns i) (replies_to i turns) ≡ err x
    → (k : ℕ) × (client_loop (expected k) (owns k) (replies_to k ((thr, e) ∷ turns)) ≡ err x)
unfolding client_loop
later_fails expected thr i e turns owns own x alone loops =
    let as_loop : (c : Client)
        → replace thr own owns i ≡ c
        → client_loop (expected i) c (replies_to i turns) ≡ err x =
      λ c at. subst (λ d. client_loop (expected i) d (replies_to i turns) ≡ err x) at loops in
    elim (Bool-cases (thr == i)) [
      | inr apart ↦ (i, rw (apart) (as_loop (owns i) (ap (λ b. if b then own else owns i) apart)))
      | inl mine ↦
          let alone' : client_step (expected i) (owns i) e ≡ ok own =
            subst (λ a. client_step (expected a) (owns a) e ≡ ok own) ((==_iff thr i).0 mine)
              alone in
          (
            i,
            rw (mine)
                (rw (alone', client_loop) (as_loop own (ap (λ b. if b then own else owns i) mine))),
          )
    ]

-- A run of all fibers, each of which alone starts where the run has it and has counted no more dead
-- packets, fails only as one of them would alone, or by the overflow of the common count: then the
-- dead packets that were counted before and the receives of the turns that timed out or were
-- interrupted are 2 ^ 31 or more.
pub run_fibers-fails :
    (expected : ℕ → List ℕ) (turns : List (ℕ × Reply)) (owns : ℕ → Client) (w : Fibers) (x : Error)
    → ((i : ℕ) → (owns i).start ≡ w.starts i)
    → ((i : ℕ) → (owns i).dead_packets ≤ w.dead_packets)
    → run_fibers expected turns w ≡ err x
    → ((i : ℕ) × (client_loop (expected i) (owns i) (replies_to i turns) ≡ err x))
      ⊎ ((x ≡ overflow) × (2 ^ 31 ≤ w.dead_packets + lost_in turns))
unfolding run_fibers client_loop
run_fibers-fails expected [] owns w x same fewer failed = absurd (ground (arith, failed))
run_fibers-fails expected ((thr, e) ∷ turns) owns w x same fewer failed =
    elim (Result-cases (fiber_turn expected thr e w)) [
      | inr (y, threw) ↦
          let failed' : fiber_turn expected thr e w ≡ err x = ground (arith, threw) in
          elim (client_step-fails (expected thr) (view_of_fiber thr w) (owns thr) e x (same thr)
            (fewer thr) (turn-fails expected thr e w x failed')) [
              | inl alone ↦ inl (thr, rw ((==_iff thr thr).1 refl) (rw (alone, client_loop) refl))
              | inr (overflows, many) ↦ inr (overflows, omega (arith, many))
            ]
      | inl (w1, turned) ↦
          let rest : run_fibers expected turns w1 ≡ err x = ground (arith, turned) in
          let (own, alone, same', fewer', counted) =
            turn-starts expected thr e owns w w1 same fewer turned in
          elim (run_fibers-fails expected turns (replace thr own owns) w1 x same' fewer' rest) [
            | inr (overflows, many) ↦ inr (overflows, omega (arith, many, counted))
            | inl (i, loops) ↦ inl (later_fails expected thr i e turns owns own x alone loops)
          ]
    ]
