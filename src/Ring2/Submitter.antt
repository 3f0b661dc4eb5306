-- ===== src/Ring2/Submitter.antt =====
-- ring2/ring2/submitter.cc: the calls that hand a request to the ring, put the fiber to sleep and
-- read the result that the poller left in the fiber's setter.
pub mod Suspension
pub mod Untimed
pub mod Timed
pub mod Liveness
use hnet.Prelude.{
  ℕ, ◌+◌, Bool, true, false, ◌&&◌, ◌||◌, List, [], ◌∷◌, Option, none, some, ◌==◌, if◌then◌else◌,
}
use hnet.Prelude.Int.{ℤ, pos, neg_ℕ, ◌-ℤ◌, ◌==ℤ◌, leb_ℤ}
use hnet.Prelude.Results.{Result, ok, err}
use hnet.Five.Time.{Duration, as_timespec}
use hnet.Ring2.Errors.{
  Outcome, Error, enocqe_panic, not_inprogress, bad_submit, bad_link_timeout, einprogress, enoent,
  etime, ecanceled, enocqe, esqe_timeout,
}
use hnet.Ring2.Kernel.{UsefulCqe, Op, link_timeout, Sqe, IoUring}
use hnet.Ring2.Ring.{Ring, submit}
use hnet.Ring2.Poller.Setters.{Store, UringResSetter, update, load, dispatch}

-- `none` is a call that does not return: it ran out of fuel, or nothing wakes the fiber.
abbrev pub Run : Type 0 → Type 0
Run A = Option (Outcome A)

abbrev pub returned : {A : Type 0} → Option A → Run A
returned none = none
returned (some a) = some (ok a)

infixl 5 ◌>>=◌
abbrev pub ◌>>=◌ : {A B : Type 0} → Run A → (A → Run B) → Run B
none >>= f = none
some (err e) >>= f = some (err e)
some (ok a) >>= f = f a

abbrev pub wakes_me : ℕ → Option ℕ → Bool
wakes_me fiber none = false
wakes_me fiber (some f) = f == fiber

-- `sched->Suspend()`: the poller dispatches the completions in turn, and the fiber goes on when one
-- of them wakes it. Other fibers do not write to its setters, which are on its stack.
unfoldable pub suspend : ℕ → List UsefulCqe → Store → Run Store
suspend fiber [] h = none
suspend fiber (c ∷ cs) h = elim (dispatch c h) [
  | err e ↦ some (err e)
  | ok (woken, h') ↦ elim (wakes_me fiber woken) [
    | true ↦ some (ok h')
    | false ↦ suspend fiber cs h'
  ]
]

abbrev pub throw : {A : Type 0} → Error → Run A
throw e = some (err e)

-- The entry of the second submission: its time is `dur.as_kernel_timespec()`.
abbrev pub timeout_sqe : ℕ → Duration → Sqe
timeout_sqe at dur = record {
  op = link_timeout (as_timespec dur.nanos);
  user_data = at;
  io_link = false;
  async = false;
  poll_first = false;
}

-- The end of the second `ring_submit`, from the results of the operation and of its timeout.
unfoldable pub timed_result : ℤ → ℤ → Outcome ℤ
timed_result op_res timeout_res =
    if timeout_res ==ℤ enoent
    then ok op_res
    else (if timeout_res ==ℤ ecanceled || timeout_res ==ℤ etime || leb_ℤ (pos 0) op_res
        then (if timeout_res ==ℤ ecanceled then ok op_res else ok esqe_timeout)
        else err (bad_link_timeout (pos 0 -ℤ timeout_res)))

-- `fiber` is the running fiber, and the addresses are those of the setters on its stack. The list
-- holds the completions that the poller sees from the suspension on. The ring that is returned is
-- the one that the fiber left when it went to sleep.
module _ (u : IoUring) (yield : Ring u → Ring u) (fuel : ℕ) (fiber : ℕ)
    (cqes : List UsefulCqe) where
  unfoldable pub ring_submit : ℕ → Sqe → Ring u → Store → Run (ℤ × Ring u × Store)
  ring_submit at sqe r h = do
    let h0 = update h at (record { fiber = fiber; res = enocqe; should_wake = none })
    (ret, r') ← returned (submit u yield fuel (record sqe { user_data = at }) false r)
    h' ← suspend fiber cqes h0
    setter ← some (load h' at)
    if setter.res ==ℤ enocqe then throw enocqe_panic else some (ok (setter.res, r', h'))

  unfoldable pub ring_submit_timed :
      ℕ → ℕ → Sqe → Duration → Ring u → Store → Run (ℤ × Ring u × Store)
  unfolding timed_result
  ring_submit_timed op timeout sqe dur r h = do
    let unset : UringResSetter = record {
      fiber = fiber;
      res = enocqe;
      should_wake = some (op, timeout);
    }
    let h0 = update (update h op unset) timeout unset
    (ret, r1) ←
        returned (submit u yield fuel (record sqe { user_data = op; io_link = true }) true r)
    (ret2, r2) ←
        if ret ==ℤ einprogress
        then returned (submit u yield fuel (timeout_sqe timeout dur) false r1)
        else throw not_inprogress
    h' ←
        if leb_ℤ (pos 2) ret2 || ret2 ==ℤ pos 0
        then suspend fiber cqes h0
        else throw (bad_submit (pos 0 -ℤ ret2))
    op_setter ← some (load h' op)
    timeout_setter ← some (load h' timeout)
    res ← some (timed_result op_setter.res timeout_setter.res)
    some (ok (res, r2, h'))
