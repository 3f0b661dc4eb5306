-- ===== src/Programs/Client/Fiber.antt =====
-- What a client fiber records.
use hnet.Prelude.{
  ℕ, suc, ◌+◌, ◌≤◌, ◌≡◌, refl, sym, ap, ◌∙◌, ◌⊎◌, inl, inr, true, List, [], ◌∷◌, length, arith,
  Option-cases,
}
use hnet.Prelude.Int.{ℤ, pos, ◌+ℤ◌, int_laws, pos_part, neg_part}
use hnet.Prelude.Results.{ok, Result-cases}
use hnet.Five.Time.{Duration, sub_instants}
use hnet.Five.Time.Arithmetic.{sub_instants-nanos}
use hnet.Programs.Client.{same_bytes, Client, Reply, client_step, client_loop}

step_counts :
    (expected : List ℕ) (c c' : Client) (e : Reply)
    → client_step expected c e ≡ ok c'
    → length c'.timings + c'.dead_packets ≡ suc (length c.timings + c.dead_packets)
unfolding client_step
step_counts expected c c' e done = ground arith

-- A fiber that gets through its rounds has either a timing or a dead packet for each.
pub client_loop_counts :
    (expected : List ℕ) (es : List Reply) (c c' : Client)
    → client_loop expected c es ≡ ok c'
    → length c'.timings + c'.dead_packets ≡ length c.timings + c.dead_packets + length es
unfolding client_loop
client_loop_counts expected [] c c' done = ground arith
client_loop_counts expected (e ∷ es) c c' done = elim (Result-cases (client_step expected c e)) [
  | inr (x, failed) ↦ ground (arith, failed)
  | inl (d, stepped) ↦
      ground
        (arith, stepped, step_counts expected c d e stepped, client_loop_counts expected es d c')
]

-- The sum of the timings.
abbrev pub total : List Duration → ℤ
total [] = pos 0
total (d ∷ ds) = d.nanos +ℤ total ds

pub same_bytes_refl : (xs : List ℕ) → same_bytes xs xs ≡ true
same_bytes_refl [] = refl
same_bytes_refl (x ∷ xs) = ground (arith, same_bytes_refl xs)

pub same_bytes-eq : (xs ys : List ℕ) → same_bytes xs ys ≡ true → xs ≡ ys
same_bytes-eq [] [] h = refl
same_bytes-eq [] (y ∷ ys) h = cc
same_bytes-eq (x ∷ xs) [] h = cc
same_bytes-eq (x ∷ xs) (y ∷ ys) h = ground (arith, same_bytes-eq xs ys)

pub regroup : (took t s now : ℤ) → took +ℤ s ≡ now → took +ℤ t +ℤ s ≡ t +ℤ now
regroup took t s now e = rw (← e) (omega int_laws)

-- A step counts a dead packet, or records the time since the fiber's start and starts anew.
step_total :
    (expected : List ℕ) (c c' : Client) (e : Reply)
    → client_step expected c e ≡ ok c'
    → (suc c.dead_packets ≡ c'.dead_packets)
      ⊎ ((c'.dead_packets ≡ c.dead_packets)
          × (total c'.timings +ℤ c.start.nanos ≡ total c.timings +ℤ c'.start.nanos))
unfolding client_step
step_total expected c c' e done = elim (Option-cases (sub_instants e.now c.start)) [
  | inl wide ↦ ground (arith, wide)
  | inr (took, fits) ↦ ground (
    arith,
    fits,
    regroup took.nanos (total c.timings) c.start.nanos e.now.nanos
        (sub_instants-nanos e.now c.start took fits),
  )
]

dead_packets_mono :
    (expected : List ℕ) (es : List Reply) (c c' : Client)
    → client_loop expected c es ≡ ok c'
    → c.dead_packets ≤ c'.dead_packets
unfolding client_loop
dead_packets_mono expected [] c c' done = ground arith
dead_packets_mono expected (e ∷ es) c c' done = elim (Result-cases (client_step expected c e)) [
  | inr (x, failed) ↦ ground (arith, failed)
  | inl (d, stepped) ↦
      ground (arith, stepped, step_total expected c d e stepped, dead_packets_mono expected es d c')
]

pub telescope :
    (t0 t1 t2 s0 s1 s2 : ℤ) → t1 +ℤ s0 ≡ t0 +ℤ s1 → t2 +ℤ s1 ≡ t1 +ℤ s2 → t2 +ℤ s0 ≡ t0 +ℤ s2
telescope t0 t1 t2 s0 s1 s2 e f =
    omega (int_laws, ap pos_part e, ap neg_part e, ap pos_part f, ap neg_part f)

-- When no packet is lost, the timings that a fiber records add up to the time from its start to its
-- last reply: no time between two rounds is left out or counted twice.
pub client_loop-total :
    (expected : List ℕ) (es : List Reply) (c c' : Client)
    → client_loop expected c es ≡ ok c'
    → c'.dead_packets ≡ c.dead_packets
    → total c'.timings +ℤ c.start.nanos ≡ total c.timings +ℤ c'.start.nanos
unfolding client_loop
client_loop-total expected [] c c' done alive = ground arith
client_loop-total expected (e ∷ es) c c' done alive =
    elim (Result-cases (client_step expected c e)) [
      | inr (x, failed) ↦ ground (arith, failed)
      | inl (d, stepped) ↦
          let rest : client_loop expected d es ≡ ok c' = ground (arith, stepped) in
          elim (step_total expected c d e stepped) [
            | inl dead ↦ absurd (omega (arith, dead, dead_packets_mono expected es d c' rest))
            | inr (same, step) ↦
                telescope (total c.timings) (total d.timings) (total c'.timings) c.start.nanos
                  d.start.nanos c'.start.nanos step
                  (client_loop-total expected es d c' rest (alive ∙ sym same))
          ]
    ]
