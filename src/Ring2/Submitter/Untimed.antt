-- ===== src/Ring2/Submitter/Untimed.antt =====
-- The whole call with no timeout.
use hnet.Prelude.{ℕ, ◌<◌, ◌≡◌, refl, ◌∙◌, false, List, ◌∷◌, ◌++◌, none, some, arith, ◌≢◌}
use hnet.Prelude.Int.{ℤ, ==ℤ→eq}
use hnet.Prelude.Results.{ok}
use hnet.Ring2.Errors.{enocqe}
use hnet.Ring2.Kernel.{UsefulCqe, IoUring, Sqe}
use hnet.Ring2.Ring.{Ring, submit}
use hnet.Ring2.Ring.Starvation.{IsFreeAfter, submitted, submit_lem}
use hnet.Ring2.Poller.Setters.{UringResSetter, Store, load, update, update_self, dispatch}
use hnet.Ring2.Poller.Quiet.{Quiet, Quiet-keeps}
use hnet.Ring2.Submitter.{suspend, ring_submit}
use hnet.Ring2.Submitter.Suspension.{suspend-Quiet}

abbrev pub waiting : ℕ → UringResSetter
waiting fiber = record { fiber = fiber; res = enocqe; should_wake = none }

abbrev pub done : ℕ → ℤ → UsefulCqe
done at x = record { user_data = at; res = x }

pub dispatch_waiting :
    (fiber at : ℕ) (x : ℤ) (h : Store)
    → h at ≡ some (waiting fiber)
    → dispatch (done at x) h ≡ ok (some fiber, update h at (record (waiting fiber) { res = x }))
unfolding dispatch
dispatch_waiting fiber at x h live = ground arith

ring_submit_steps :
    {u : IoUring} (yield : Ring u → Ring u) (fuel fiber at : ℕ) (cqes : List UsefulCqe) (sqe : Sqe)
    (x ret : ℤ) (r r' : Ring u) (h h' : Store)
    → x ≢ enocqe
    → submit u yield fuel (record sqe { user_data = at }) false r ≡ some (ret, r')
    → suspend fiber cqes (update h at (waiting fiber)) ≡ some (ok h')
    → h' at ≡ some (record (waiting fiber) { res = x })
    → ring_submit u yield fuel fiber cqes at sqe r h ≡ some (ok (x, r', h'))
unfolding ring_submit
ring_submit_steps yield fuel fiber at cqes sqe x ret r r' h h' x_set e1 woken live =
    rw (e1, ring_submit)
      (rw (woken, ring_submit) (rw (live, load) (ground (arith, ==ℤ→eq x enocqe))))

-- A call ends once the queue has room and its own completion comes in, whatever completes before it,
-- and it returns the result of that completion, unless that is the code that stands for no result.
pub ring_submit_lem :
    {u : IoUring} (yield : Ring u → Ring u) (n fuel fiber at : ℕ) (before after : List UsefulCqe)
    (sqe : Sqe) (x : ℤ) (r : Ring u) (h h1 : Store)
    → x ≢ enocqe
    → n < fuel
    → IsFreeAfter yield n r
    → Quiet fiber (λ a. a ≡ at) (update h at (waiting fiber)) before h1
    → ring_submit u yield fuel fiber (before ++ done at x ∷ after) at sqe r h
      ≡ some (
          ok (
            x,
            (submitted yield n (record sqe { user_data = at }) false r).1,
            update h1 at (record (waiting fiber) { res = x }),
          ))
unfolding suspend
ring_submit_lem yield n fuel fiber at before after sqe x r h h1 x_set nf free quiet =
    let s : UringResSetter = record (waiting fiber) { res = x } in
    let live : h1 at ≡ some (waiting fiber) =
      Quiet-keeps at refl quiet ∙ update_self h at (waiting fiber) in
    ring_submit_steps yield fuel fiber at _ sqe x
      (submitted yield n (record sqe { user_data = at }) false r).0 r
      (submitted yield n (record sqe { user_data = at }) false r).1 h (update h1 at s) x_set
      (submit_lem yield n fuel (record sqe { user_data = at }) false r free nf)
      (suspend-Quiet _ quiet ∙ rw (dispatch_waiting fiber at x h1 live, suspend) (ground arith))
      (update_self h1 at s)
