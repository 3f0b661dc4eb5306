-- ===== src/Ring2/Ring/Accounting.antt =====
-- `pending_count_` is the number of completions that are outstanding.
use hnet.Prelude.{
  ℕ, zero, suc, ◌+◌, ◌^◌, ◌<◌, ◌≤◌, ◌≡◌, Bool, true, false, length, Option, some, arith, inl, inr,
  ◌↔◌, Option-cases,
}
use hnet.Prelude.Int.{ℤ, pos, ==ℤ→eq}
use hnet.Prelude.Results.{ok}
use hnet.Ring2.Kernel.{UsefulCqe, Sqe, IoUring, IsAccounted}
use hnet.Ring2.Ring.{
  Ring, size_add, get_slot, submit, consume, poll, try_poll, try_poll_many, has_pending,
}

module _ {u : IoUring} (k : IsAccounted u) where
  -- Fewer than 2 ^ 64 completions are outstanding, and the count says how many.
  abbrev pub IsBalanced : Ring u → Type 0
  IsBalanced r = (r.pending_count ≡ k.outstanding r.ring) × (r.pending_count < 2 ^ 64)

  -- A completion that `poll` returns is counted off, and a balanced ring stays balanced.
  pub poll-IsBalanced :
      (r r' : Ring u) (c : UsefulCqe) → IsBalanced r → poll u r ≡ ok (c, r') → IsBalanced r'
  unfolding poll consume
  poll-IsBalanced r r' c b e = ground (
    arith,
    ==ℤ→eq (u.wait_cqe r.ring).0 (pos 0),
    k.at_wait_cqe r.ring,
    k.waited r.ring,
    k.at_cqe_seen (u.wait_cqe r.ring).2,
    k.within (u.wait_cqe r.ring).2,
  )

  -- So does `try_poll`, whether or not it finds one.
  pub try_poll-IsBalanced :
      (r r' : Ring u) (c : Option UsefulCqe)
      → IsBalanced r
      → try_poll u r ≡ ok (c, r')
      → IsBalanced r'
  unfolding try_poll consume
  try_poll-IsBalanced r r' c b e = ground (
    arith,
    ==ℤ→eq (u.peek_cqe r.ring).0 (pos 0),
    k.at_peek_cqe r.ring,
    k.peeked r.ring,
    k.at_cqe_seen (u.peek_cqe r.ring).2,
    k.within (u.peek_cqe r.ring).2,
  )

  -- `try_poll_many` takes at most 16 completions and counts off as many as it returns.
  pub try_poll_many-IsBalanced :
      (r : Ring u)
      → IsBalanced r
      → let (cs, r') = try_poll_many u r in
        IsBalanced r' × (length cs ≤ 16) × (r'.pending_count + length cs ≡ r.pending_count)
  unfolding try_poll_many
  try_poll_many-IsBalanced r b = omega (
    arith,
    k.batch_limit 16 r.ring,
    k.batched 16 r.ring,
    k.within (u.peek_batch_cqe 16 r.ring).1,
    k.at_peek_batch 16 r.ring,
    k.at_cq_advance (length (u.peek_batch_cqe 16 r.ring).0) (u.peek_batch_cqe 16 r.ring).1,
  )

  get_slot-IsBalanced :
      (yield : Ring u → Ring u) (keep : (s : Ring u) → IsBalanced s → IsBalanced (yield s))
      (fuel : ℕ) (starved was : Bool) (r r' : Ring u)
      → IsBalanced r
      → get_slot u yield fuel was r ≡ some (starved, r')
      → IsBalanced r'
  unfolding get_slot
  get_slot-IsBalanced yield keep zero starved was r r' b e = cc
  get_slot-IsBalanced yield keep (suc fuel) starved was r r' b e =
      let full : Ring u = record r { ring = (u.get_sqe r.ring).1; cycles = size_add r.cycles 1 } in
      ground (
        arith,
        k.at_get_sqe r.ring,
        keep full,
        get_slot-IsBalanced yield keep fuel starved true (yield full) r',
      )

  -- `submit` counts the entry that it puts in, if the other fibers keep the ring balanced while it
  -- waits for a slot, and the count does not come to 2 ^ 64.
  pub submit-IsBalanced :
      (yield : Ring u → Ring u) (keep : (s : Ring u) → IsBalanced s → IsBalanced (yield s))
      (fuel : ℕ) (sqe : Sqe) (next_is_timeout : Bool) (n : ℤ) (r r' : Ring u)
      → IsBalanced r
      → submit u yield fuel sqe next_is_timeout r ≡ some (n, r')
      → k.outstanding r'.ring < 2 ^ 64
      → IsBalanced r'
  unfolding submit
  submit-IsBalanced yield keep fuel sqe next_is_timeout n r r' b e small =
      elim (Option-cases (get_slot u yield fuel false r)) [
        | inl stuck ↦ ground (arith, stuck)
        | inr ((starved, s), found) ↦ ground (
          arith,
          get_slot-IsBalanced yield keep fuel starved false r s b found,
          k.at_put_sqe sqe s.ring,
          k.at_submit (u.put_sqe sqe s.ring),
        )
      ]

  -- `has_pending` says whether a completion is outstanding.
  pub has_pending-IsBalanced :
      (r : Ring u) → IsBalanced r → (has_pending u r ≡ true) ↔ (0 < k.outstanding r.ring)
  unfolding has_pending
  has_pending-IsBalanced r b = ground arith
