-- ===== src/Programs/Client/Fibers/Interleaving.antt =====
-- A fiber does the same whatever the others do in between.
use hnet.Prelude.{
  ◌≤◌, ℕ, suc, ◌+◌, ◌≡◌, refl, sym, subst, false, ==_iff, ◌∙◌, ◌⊎◌, inl, inr, List, [], ◌∷◌, some,
  ◌||◌, Bool-cases, Option-cases, ◌==◌, if◌then◌else◌, arith,
}
use hnet.Prelude.Int.{◌==ℤ◌}
use hnet.Prelude.Results.{ok, Result-cases}
use hnet.Five.Time.{Instant, Duration, sub_instants}
use hnet.Ring2.Errors.{esqe_timeout, eintr}
use hnet.Programs.Client.{Client, Reply, client_step, client_loop}
use hnet.Programs.Client.Fibers.{
  Fibers, view_of_fiber, set_start, after_turn, fiber_turn, run_fibers,
}

-- The third list has the elements of the first two, each of them in its order.
pub data Shuffle {A : Type 0} : List A → List A → List A → Type 0 where
  done : Shuffle [] [] []
  left : {x : A} {xs ys zs : List A} → Shuffle xs ys zs → Shuffle (x ∷ xs) ys (x ∷ zs)
  right : {y : A} {xs ys zs : List A} → Shuffle xs ys zs → Shuffle xs (y ∷ ys) (y ∷ zs)

-- The replies to one fiber.
abbrev pub replies_to : ℕ → List (ℕ × Reply) → List Reply
replies_to i [] = []
replies_to i ((thr, e) ∷ turns) = if thr == i then e ∷ replies_to i turns else replies_to i turns

-- A step counts a dead packet or adds a timing, and does so from any timings and any count.
pub client_step-alone :
    (expected : List ℕ) (c c' own : Client) (e : Reply)
    → own.start ≡ c.start
    → own.dead_packets ≤ c.dead_packets
    → client_step expected c e ≡ ok c'
    → ((client_step expected own e
          ≡ ok (record own { start = c'.start; dead_packets = suc own.dead_packets }))
        × (c'.timings ≡ c.timings)
        × (c'.dead_packets ≡ suc c.dead_packets))
      ⊎ ((took : Duration) × (client_step expected own e
            ≡ ok (record own { start = c'.start; timings = took ∷ own.timings }))
          × (c'.timings ≡ took ∷ c.timings)
          × (c'.dead_packets ≡ c.dead_packets))
unfolding client_step
client_step-alone expected c c' own e same fewer stepped =
    elim (Bool-cases (e.result.ret ==ℤ esqe_timeout || e.result.ret ==ℤ eintr)) [
      | inl dead ↦ inl (ground (arith, dead), ground (arith, dead), ground (arith, dead))
      | inr alive ↦ elim (Option-cases (sub_instants e.now c.start)) [
        | inl wide ↦ absurd (ground (arith, alive, wide))
        | inr (took, fits) ↦
            let fits' : sub_instants e.now own.start ≡ some took = rw (same) fits in
            inr (
              took,
              ground (arith, alive, fits, fits'),
              ground (arith, alive, fits),
              ground (arith, alive, fits),
            )
      ]
    ]

-- What a fiber has of its own, among what the others have added.
abbrev pub IsShare : ℕ → Client → Fibers → Type 0
IsShare i own w =
    (own.start ≡ w.starts i)
    × ((rest : List Duration) × Shuffle own.timings rest w.timings)
    × ((others : ℕ) × (own.dead_packets + others ≡ w.dead_packets))

set_start_self : (i : ℕ) (t : Instant) (starts : ℕ → Instant) → set_start i t starts i ≡ t
unfolding set_start
set_start_self i t starts = ground arith

set_start_ne :
    (i thr : ℕ) (t : Instant) (starts : ℕ → Instant)
    → (thr == i) ≡ false
    → set_start thr t starts i ≡ starts i
unfolding set_start
set_start_ne i thr t starts apart = ground arith

pub turn-step :
    (expected : ℕ → List ℕ) (thr : ℕ) (e : Reply) (w w' : Fibers)
    → fiber_turn expected thr e w ≡ ok w'
    → (c : Client) × (client_step (expected thr) (view_of_fiber thr w) e ≡ ok c)
      × (after_turn thr c w ≡ w')
unfolding fiber_turn
turn-step expected thr e w w' turned =
    elim (Result-cases (client_step (expected thr) (view_of_fiber thr w) e)) [
      | inr (x, failed) ↦ absurd (ground (arith, failed))
      | inl (c, stepped) ↦ (c, stepped, ground (arith, stepped))
    ]

-- A turn of the fiber is a step of its own; a turn of another one leaves its share alone.
turn_mine :
    (expected : ℕ → List ℕ) (i : ℕ) (e : Reply) (own : Client) (w w' : Fibers)
    → IsShare i own w
    → fiber_turn expected i e w ≡ ok w'
    → (own' : Client) × (client_step (expected i) own e ≡ ok own') × IsShare i own' w'
turn_mine expected i e own w w' (same, (rest, mixed), (others, count)) turned =
    let (c, stepped, after) = turn-step expected i e w w' turned in
    let start = sym (set_start_self i c.start w.starts) in
    elim (client_step-alone (expected i) (view_of_fiber i w) c own e same (omega (arith, count))
      stepped) [
        | inl (alone, kept, more) ↦ (
          record own { start = c.start; dead_packets = suc own.dead_packets },
          alone,
          subst (IsShare i (record own { start = c.start; dead_packets = suc own.dead_packets }))
              after
              (
                start,
                (rest, subst (Shuffle own.timings rest) (sym kept) mixed),
                (others, omega (arith, count, more)),
              ),
        )
        | inr (took, alone, more, kept) ↦ (
          record own { start = c.start; timings = took ∷ own.timings },
          alone,
          subst (IsShare i (record own { start = c.start; timings = took ∷ own.timings })) after (
            start,
            (rest, subst (Shuffle (took ∷ own.timings) rest) (sym more) (left mixed)),
            (others, omega (arith, count, kept)),
          ),
        )
      ]

turn_other :
    (expected : ℕ → List ℕ) (i thr : ℕ) (e : Reply) (own : Client) (w w' : Fibers)
    → (thr == i) ≡ false
    → IsShare i own w
    → fiber_turn expected thr e w ≡ ok w'
    → IsShare i own w'
turn_other expected i thr e own w w' apart (same, (rest, mixed), (others, count)) turned =
    let (c, stepped, after) = turn-step expected thr e w w' turned in
    let start = same ∙ sym (set_start_ne i thr c.start w.starts apart) in
    subst (IsShare i own) after
      (elim (client_step-alone (expected thr) (view_of_fiber thr w) c (view_of_fiber thr w) e refl
        (omega arith) stepped) [
          | inl (alone, kept, more) ↦ (
            start,
            (rest, subst (Shuffle own.timings rest) (sym kept) mixed),
            (suc others, omega (arith, count, more)),
          )
          | inr (took, alone, more, kept) ↦ (
            start,
            (took ∷ rest, subst (Shuffle own.timings (took ∷ rest)) (sym more) (right mixed)),
            (others, omega (arith, count, kept)),
          )
        ])

-- Turns in any order: a fiber ends as its own loop over its own replies alone would, from the start
-- that it had. The shared timings are those of that loop mixed with those of the others, each in its
-- order, and the dead packets are those of that loop and of the others.
pub run_fibers-client_loop :
    (expected : ℕ → List ℕ) (turns : List (ℕ × Reply)) (i : ℕ) (own : Client) (w w' : Fibers)
    → IsShare i own w
    → run_fibers expected turns w ≡ ok w'
    → (own' : Client) × (client_loop (expected i) own (replies_to i turns) ≡ ok own')
      × IsShare i own' w'
unfolding run_fibers client_loop
run_fibers-client_loop expected [] i own w w' share ran =
    let same : w ≡ w' = ground (arith, ran) in (own, refl, subst (IsShare i own) same share)
run_fibers-client_loop expected ((thr, e) ∷ turns) i own w w' share ran =
    elim (Result-cases (fiber_turn expected thr e w)) [
      | inr (x, failed) ↦ absurd (ground (arith, failed))
      | inl (w1, turned) ↦
          let rest : run_fibers expected turns w1 ≡ ok w' = ground (arith, turned) in
          elim (Bool-cases (thr == i)) [
            | inr apart ↦
                let (own', loops, share') =
                  run_fibers-client_loop expected turns i own w1 w'
                    (turn_other expected i thr e own w w1 apart share turned) rest in
                (own', rw (apart) loops, share')
            | inl mine ↦
                let turned' : fiber_turn expected i e w ≡ ok w1 =
                  subst (λ a. fiber_turn expected a e w ≡ ok w1) ((==_iff thr i).0 mine) turned in
                let (own1, stepped, share1) = turn_mine expected i e own w w1 share turned' in
                let (own', loops, share') =
                  run_fibers-client_loop expected turns i own1 w1 w' share1 rest in
                (own', rw (mine) (rw (stepped, client_loop) loops), share')
          ]
    ]
