-- ===== src/Ring2/Ring/Reachable.antt =====
-- The life of a ring: what holds from its constructor on, whatever calls are made.
use hnet.Prelude.{ℕ, ◌^◌, ◌<◌, ◌≡◌, Bool, true, Option, some, arith, ◌↔◌}
use hnet.Prelude.Int.{ℤ}
use hnet.Prelude.Results.{ok}
use hnet.Ring2.Kernel.{UsefulCqe, Sqe, IoUring, IsAccounted}
use hnet.Ring2.Ring.{
  Ring, RingParams, ring_params, make_ring, submit, poll, try_poll, try_poll_many, has_pending,
}
use hnet.Ring2.Ring.Accounting.{
  IsBalanced, submit-IsBalanced, poll-IsBalanced, try_poll-IsBalanced, try_poll_many-IsBalanced,
  has_pending-IsBalanced,
}

-- The rings that calls lead to from a first one. A submission counts only while fewer than 2 ^ 64
-- completions are outstanding.
pub data Reachable {u : IoUring} (k : IsAccounted u) (yield : Ring u → Ring u) (first : Ring u)
    : Ring u → Type 0 where
  created : Reachable k yield first first
  submits :
      {r r' : Ring u} (fuel : ℕ) (sqe : Sqe) (next_is_timeout : Bool) (n : ℤ)
      → Reachable k yield first r
      → submit u yield fuel sqe next_is_timeout r ≡ some (n, r')
      → k.outstanding r'.ring < 2 ^ 64
      → Reachable k yield first r'
  polls :
      {r r' : Ring u} (c : UsefulCqe)
      → Reachable k yield first r
      → poll u r ≡ ok (c, r')
      → Reachable k yield first r'
  tries :
      {r r' : Ring u} (c : Option UsefulCqe)
      → Reachable k yield first r
      → try_poll u r ≡ ok (c, r')
      → Reachable k yield first r'
  takes_many :
      {r : Ring u} → Reachable k yield first r → Reachable k yield first (try_poll_many u r).1

module _ {u : IoUring} (k : IsAccounted u) (yield : Ring u → Ring u)
    (keep : (s : Ring u) → IsBalanced k s → IsBalanced k (yield s)) where
  Reachable-IsBalanced :
      {first r : Ring u} → IsBalanced k first → Reachable k yield first r → IsBalanced k r
  Reachable-IsBalanced b created = b
  Reachable-IsBalanced b (submits {r} {r'} fuel sqe next_is_timeout n before e small) =
      submit-IsBalanced k yield keep fuel sqe next_is_timeout n r r' (Reachable-IsBalanced b before)
        e small
  Reachable-IsBalanced b (polls {r} {r'} c before e) =
      poll-IsBalanced k r r' c (Reachable-IsBalanced b before) e
  Reachable-IsBalanced b (tries {r} {r'} c before e) =
      try_poll-IsBalanced k r r' c (Reachable-IsBalanced b before) e
  Reachable-IsBalanced b (takes_many {r} before) =
      (try_poll_many-IsBalanced k r (Reachable-IsBalanced b before)).0

  make_ring-IsBalanced :
      (queue_init : ℕ → RingParams → ℤ × u.Q) (entries cpuid : ℕ) (first : Ring u)
      → k.outstanding (queue_init entries (ring_params cpuid)).1 ≡ 0
      → make_ring u queue_init entries cpuid ≡ ok first
      → IsBalanced k first
  unfolding make_ring
  make_ring-IsBalanced queue_init entries cpuid first empty e = ground arith

  -- From the constructor on, if the kernel's queue starts with nothing outstanding and the other
  -- fibers keep the count right while a submission waits, `has_pending` is true exactly when a
  -- completion is outstanding, whatever submissions and polls were made.
  pub has_pending-Reachable :
      (queue_init : ℕ → RingParams → ℤ × u.Q) (entries cpuid : ℕ) (first r : Ring u)
      → k.outstanding (queue_init entries (ring_params cpuid)).1 ≡ 0
      → make_ring u queue_init entries cpuid ≡ ok first
      → Reachable k yield first r
      → (has_pending u r ≡ true) ↔ (0 < k.outstanding r.ring)
  has_pending-Reachable queue_init entries cpuid first r empty e reached =
      has_pending-IsBalanced k r
        (Reachable-IsBalanced (make_ring-IsBalanced queue_init entries cpuid first empty e) reached)
