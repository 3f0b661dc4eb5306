-- ===== src/Ring2/Ring/Starvation.antt =====
-- The submission loop of ring.cc: when it ends, and what it counts.
use hnet.Prelude.{
  ◌⊎◌, inl, inr, refl, ap, ◌∙◌, ℕ, zero, suc, ◌+◌, ◌%◌, ◌^◌, ◌<◌, ◌≡◌, Bool, true, false, some,
  arith, ltb, if◌then◌else◌,
}
use hnet.Prelude.Int.{ℤ}
use hnet.Ring2.Kernel.{Sqe, IoUring}
use hnet.Ring2.Ring.{Ring, size_add, get_slot, count_starved, enqueue, submit}

module _ {u : IoUring} (yield : Ring u → Ring u) where
  -- One round of the loop that finds no slot.
  abbrev pub retry : Ring u → Ring u
  retry r = yield (record r { ring = (u.get_sqe r.ring).1; cycles = size_add r.cycles 1 })

  abbrev pub retries : ℕ → Ring u → Ring u
  retries zero r = r
  retries (suc n) r = retries n (retry r)

  -- The first `n` attempts find the submission queue full, and the next one finds a slot.
  abbrev pub IsFreeAfter : ℕ → Ring u → Type 0
  IsFreeAfter zero r = (u.get_sqe r.ring).0 ≡ true
  IsFreeAfter (suc n) r = ((u.get_sqe r.ring).0 ≡ false) × IsFreeAfter n (retry r)

  -- The ring with the slot taken.
  abbrev pub slotted : Ring u → Ring u
  slotted r = record r { ring = (u.get_sqe r.ring).1 }

  get_slot_lem :
      (n fuel : ℕ) (starved : Bool) (r : Ring u)
      → IsFreeAfter n r
      → n < fuel
      → get_slot u yield fuel starved r
        ≡ some (if ltb 0 n then true else starved, slotted (retries n r))
  unfolding get_slot
  get_slot_lem n zero starved r free h = elim h [ ]
  get_slot_lem zero (suc fuel) starved r free h = rw free
  get_slot_lem (suc n) (suc fuel) starved r free h =
      ground (arith, get_slot_lem n fuel true (retry r) free.1)

  -- What a submission returns that finds a slot after `n` rounds without one.
  abbrev pub submitted : ℕ → Sqe → Bool → Ring u → ℤ × Ring u
  submitted n sqe next_is_timeout r =
      enqueue u sqe next_is_timeout (count_starved u (ltb 0 n) (slotted (retries n r)))

  pub submit_lem :
      (n fuel : ℕ) (sqe : Sqe) (next_is_timeout : Bool) (r : Ring u)
      → IsFreeAfter n r
      → n < fuel
      → submit u yield fuel sqe next_is_timeout r ≡ some (submitted n sqe next_is_timeout r)
  unfolding submit
  submit_lem n fuel sqe next_is_timeout r free h =
      rw (get_slot_lem n fuel false r free h, submit) (ground arith)

  cycles-retries :
      (keep : (s : Ring u) → ((yield s).cycles ≡ s.cycles) × ((yield s).times ≡ s.times)) (n : ℕ)
      (r : Ring u)
      → r.cycles < 2 ^ 64
      → ((retries n r).cycles ≡ (r.cycles + n) % 2 ^ 64) × ((retries n r).times ≡ r.times)
  cycles-retries keep zero r h = omega arith
  cycles-retries keep (suc n) r h = omega (
    arith,
    keep (record r { ring = (u.get_sqe r.ring).1; cycles = size_add r.cycles 1 }),
    cycles-retries keep n (retry r),
  )

  -- What `submit` does once it has a slot.
  enqueue_lem :
      (sqe : Sqe) (next_is_timeout : Bool) (r : Ring u)
      → let r' = (enqueue u sqe next_is_timeout r).1 in
        let filled = u.put_sqe sqe r.ring in
        (r'.cycles ≡ r.cycles)
        × (r'.times ≡ r.times)
        × (r'.pending_count ≡ size_add r.pending_count 1)
        × (r'.ring ≡ (if next_is_timeout then filled else (u.submit filled).1))
  unfolding enqueue
  enqueue_lem sqe true r = (refl, refl, refl, refl)
  enqueue_lem sqe false r = (refl, refl, refl, refl)

  -- A submission that finds no slot in `n` rounds and then finds one, while the other fibers leave the
  -- two counters as they are in each of these rounds, returns with any fuel above `n`. It has counted
  -- `n` cycles, and one starved submission when `n` is not 0 and none otherwise, each modulo 2 ^ 64.
  -- It has put its entry into the slot that was found and counted it as pending, and has called the
  -- kernel unless a timeout is to follow.
  pub submit-counts :
      (keep : (s : Ring u) → ((yield s).cycles ≡ s.cycles) × ((yield s).times ≡ s.times))
      (n fuel : ℕ) (sqe : Sqe) (next_is_timeout : Bool) (r : Ring u)
      → IsFreeAfter n r
      → n < fuel
      → r.cycles < 2 ^ 64
      → let filled = u.put_sqe sqe (u.get_sqe (retries n r).ring).1 in
        (res : ℤ) × (r' : Ring u) × (submit u yield fuel sqe next_is_timeout r ≡ some (res, r'))
        × (r'.cycles ≡ (r.cycles + n) % 2 ^ 64)
        × (((n ≡ 0) × (r'.times ≡ r.times)) ⊎ ((0 < n) × (r'.times ≡ (r.times + 1) % 2 ^ 64)))
        × (r'.pending_count ≡ ((retries n r).pending_count + 1) % 2 ^ 64)
        × (r'.ring ≡ (if next_is_timeout then filled else (u.submit filled).1))
  unfolding count_starved
  submit-counts keep zero fuel sqe next_is_timeout r free h small =
      let (cycles, times, pending, queue) = enqueue_lem sqe next_is_timeout (slotted r) in
      (
        (submitted 0 sqe next_is_timeout r).0,
        (submitted 0 sqe next_is_timeout r).1,
        submit_lem 0 fuel sqe next_is_timeout r free h,
        omega (arith, cycles),
        inl (refl, times),
        pending,
        queue,
      )
  submit-counts keep (suc n) fuel sqe next_is_timeout r free h small =
      let kept = cycles-retries keep (suc n) r small in
      let starved = count_starved u true (slotted (retries (suc n) r)) in
      let (cycles, times, pending, queue) = enqueue_lem sqe next_is_timeout starved in
      let positive : ltb 0 (suc n) ≡ true = ground arith in
      (
        (enqueue u sqe next_is_timeout starved).0,
        (enqueue u sqe next_is_timeout starved).1,
        submit_lem (suc n) fuel sqe next_is_timeout r free h ∙ rw (positive) refl,
        cycles ∙ kept.0,
        inr (omega arith, times ∙ ap (λ m. size_add m 1) kept.1),
        pending,
        queue,
      )
