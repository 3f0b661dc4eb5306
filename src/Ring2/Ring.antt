-- ===== src/Ring2/Ring.antt =====
-- ring2/ring2/ring.cc: the submission loop and the three ways to take a completion.
-- The counters are `size_t`, so they wrap at 2 ^ 64.
pub mod Accounting
pub mod Starvation
pub mod Reachable
use hnet.Prelude.{
  ℕ, zero, suc, ◌+◌, ◌-◌, ◌%◌, ◌^◌, Bool, true, false, List, [], ◌∷◌, length, ◌==◌, Option, none,
  some, ltb, if◌then◌else◌,
}
use hnet.Prelude.Int.{ℤ, pos, ◌-ℤ◌, ◌==ℤ◌}
use hnet.Prelude.Results.{ok, err}
use hnet.Ring2.Errors.{Outcome, peek_cqe_failed, wait_cqe_failed, bad_init, eagain, einprogress}
use hnet.Ring2.Kernel.{UsefulCqe, Sqe, IoUring}

-- `Ring`, with its `Starvation` counters.
pub record Ring (u : IoUring) : Type 0 where
  pub ring : u.Q
  pub pending_count : ℕ
  pub cycles : ℕ
  pub times : ℕ

-- The flags of `struct io_uring_params`, and the fields that the constructor sets.
pub data SetupFlag : Type 0 where
  setup_sqpoll setup_single_issuer setup_sq_aff : SetupFlag

pub record RingParams : Type 0 where
  pub flags : List SetupFlag
  pub sq_thread_idle : ℕ
  pub sq_thread_cpu : ℕ

-- `(u32) -1`: no processor is asked for.
abbrev pub no_cpu : ℕ
no_cpu = 2 ^ 32 - 1

unfoldable pub ring_params : ℕ → RingParams
ring_params cpuid =
    if cpuid == no_cpu
    then record {
      flags = setup_sqpoll ∷ setup_single_issuer ∷ [];
      sq_thread_idle = 2_000;
      sq_thread_cpu = 0;
    }
    else record {
      flags = setup_sqpoll ∷ setup_single_issuer ∷ setup_sq_aff ∷ [];
      sq_thread_idle = 2_000;
      sq_thread_cpu = cpuid;
    }

abbrev pub size_add : ℕ → ℕ → ℕ
size_add a b = (a + b) % 2 ^ 64

abbrev pub size_sub : ℕ → ℕ → ℕ
size_sub a b = (a + 2 ^ 64 - b) % 2 ^ 64

module _ (u : IoUring) where
  -- The constructor; `queue_init` is `io_uring_queue_init_params`.
  unfoldable pub make_ring : (ℕ → RingParams → ℤ × u.Q) → ℕ → ℕ → Outcome (Ring u)
  unfolding ring_params
  make_ring queue_init entries cpuid =
      let (res, q) = queue_init entries (ring_params cpuid) in
      if res ==ℤ pos 0
      then ok (record { ring = q; pending_count = 0; cycles = 0; times = 0 })
      else err (bad_init (pos 0 -ℤ res))

  -- The loop of `submit`: `yield` is what the other fibers do to the ring in `tf::Yield`.
  -- `none` means that the fuel ran out. The Boolean is `starved`.
  unfoldable pub get_slot : (Ring u → Ring u) → ℕ → Bool → Ring u → Option (Bool × Ring u)
  get_slot yield zero starved r = none
  get_slot yield (suc fuel) starved r =
      let (found, q) = u.get_sqe r.ring in
      let r' : Ring u = record r { ring = q } in
      let rest = get_slot yield fuel true (yield (record r' { cycles = size_add r'.cycles 1 })) in
      if found then some (starved, r') else rest

  unfoldable pub count_starved : Bool → Ring u → Ring u
  count_starved starved r = if starved then record r { times = size_add r.times 1 } else r

  -- `builder(sqe)`, then the count and the call of the kernel.
  unfoldable pub enqueue : Sqe → Bool → Ring u → ℤ × Ring u
  enqueue sqe next_is_timeout r =
      let filled : Ring u = record r {
        ring = u.put_sqe sqe r.ring;
        pending_count = size_add r.pending_count 1;
      } in
      let (n, q) = u.submit filled.ring in
      if next_is_timeout then (einprogress, filled) else (n, record filled { ring = q })

  unfoldable pub submit : (Ring u → Ring u) → ℕ → Sqe → Bool → Ring u → Option (ℤ × Ring u)
  unfolding count_starved enqueue
  submit yield fuel sqe next_is_timeout r = elim (get_slot yield fuel false r) [
    | none ↦ none
    | some (starved, r') ↦ some (enqueue sqe next_is_timeout (count_starved starved r'))
  ]

  -- `io_uring_cqe_seen` and the count.
  unfoldable pub consume : Ring u → Ring u
  consume r = record r { ring = u.cqe_seen r.ring; pending_count = size_sub r.pending_count 1 }

  unfoldable pub poll : Ring u → Outcome (UsefulCqe × Ring u)
  unfolding consume
  poll r =
      let (ret, cqe, q) = u.wait_cqe r.ring in
      if ret ==ℤ pos 0 then ok (cqe, consume (record r { ring = q })) else err wait_cqe_failed

  unfoldable pub try_poll : Ring u → Outcome (Option UsefulCqe × Ring u)
  unfolding consume
  try_poll r =
      let (ret, cqe, q) = u.peek_cqe r.ring in
      if ret ==ℤ eagain
      then ok (none, record r { ring = q })
      else (if ret ==ℤ pos 0
          then ok (some cqe, consume (record r { ring = q }))
          else err peek_cqe_failed)

  unfoldable pub try_poll_many : Ring u → List UsefulCqe × Ring u
  try_poll_many r =
      let (cqes, q) = u.peek_batch_cqe 16 r.ring in
      (
        cqes,
        record r {
          ring = u.cq_advance (length cqes) q;
          pending_count = size_sub r.pending_count (length cqes);
        },
      )

  unfoldable pub has_pending : Ring u → Bool
  has_pending r = ltb 0 r.pending_count
