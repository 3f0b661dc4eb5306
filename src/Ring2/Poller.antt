-- ===== src/Ring2/Poller.antt =====
-- ring2/ring2/poller.cc: a completion is written into the setter that its user data points to, and
-- the fiber that waits on it is handed to the scheduler.
pub mod Wakeup
pub mod Delivery
pub mod Quiet
pub mod Setters
pub mod Sequence
use hnet.Prelude.{
  ℕ, ◌+◌, ◌%◌, ◌^◌, Bool, true, false, List, [], ◌∷◌, Option, none, some, leb, if◌then◌else◌,
}
use hnet.Prelude.Int.{ℤ, ◌==ℤ◌}
use hnet.Prelude.Results.{ok, err, ◌>>=◌}
use hnet.Ring2.Errors.{Outcome}
use hnet.Ring2.Kernel.{UsefulCqe, IoUring}
use hnet.Ring2.Ring.{Ring, size_add, poll, try_poll, try_poll_many, has_pending}
use Setters.{Store, dispatch, dispatch_all}

-- `RingPoller`.
pub record RingPoller (u : IoUring) : Type 0 where
  pub ring : Ring u
  pub attempts : ℕ
  pub max_attempts : ℕ

module _ (u : IoUring) where
  -- The constructor, and `HasPending`.
  unfoldable pub make_poller : Ring u → ℕ → RingPoller u
  make_poller ring busypoll_attempts = record {
    ring = ring;
    attempts = 0;
    max_attempts = busypoll_attempts;
  }

  unfoldable pub poller_has_pending : RingPoller u → Bool
  poller_has_pending p = has_pending u p.ring

  -- The tail of `TryPoll`: the counter falls back to 0 only when there is a completion.
  unfoldable pub deliver :
      Option UsefulCqe → RingPoller u → Store → Outcome (Option ℕ × RingPoller u × Store)
  deliver none p h = ok (none, p, h)
  deliver (some cqe) p h = do
    (fiber, h') ← dispatch cqe h
    ok (fiber, record p { attempts = 0 }, h')

  -- From `max_attempts_` attempts on, `TryPoll` waits in the kernel, and what it waited for takes
  -- the place of what it had peeked.
  unfoldable pub poll_once : RingPoller u → Outcome (Option UsefulCqe × RingPoller u)
  poll_once p = do
    (maybe_cqe, r) ← try_poll u p.ring
    let p' : RingPoller u = record p { ring = r; attempts = size_add p.attempts 1 }
    if leb p'.max_attempts p'.attempts
        then (poll u r >>= λ (cqe, r'). ok (some cqe, record p' { ring = r' }))
        else ok (maybe_cqe, p')

  unfoldable pub poll_fiber : RingPoller u → Store → Outcome (Option ℕ × RingPoller u × Store)
  unfolding poll_once deliver
  poll_fiber p h = do (maybe_cqe, p') ← poll_once p; deliver maybe_cqe p' h

  unfoldable pub poll_fibers :
      RingPoller u → Store → Outcome (List (Option ℕ) × RingPoller u × Store)
  poll_fibers p h =
      let (cs, r) = try_poll_many u p.ring in
      dispatch_all cs h >>= λ (fibers, h'). ok (fibers, record p { ring = r }, h')
