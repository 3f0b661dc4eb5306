-- ===== src/Ring2/Submitter/Timed.antt =====
-- The whole call with a timeout: what it returns, in whichever order its completions come in.
use hnet.Prelude.{
  ℕ, ◌<◌, ◌≡◌, refl, sym, ◌∙◌, true, false, ◌||◌, List, ◌∷◌, ◌++◌, some, arith, ◌≢◌, ◌⊎◌, ◌↔◌, inl,
  inr,
}
use hnet.Prelude.Int.{ℤ, pos, leb_ℤ, ◌==ℤ◌, ◌≤ℤ◌}
use hnet.Prelude.Results.{ok, err, ◌>>=◌}
use hnet.Five.Time.{Duration}
use hnet.Ring2.Errors.{Outcome, enocqe, einprogress, enoent, ecanceled, etime, esqe_timeout}
use hnet.Ring2.Kernel.{UsefulCqe, IoUring, Sqe}
use hnet.Ring2.Ring.{Ring, enqueue, submit}
use hnet.Ring2.Ring.Starvation.{IsFreeAfter, submitted, submit_lem}
use hnet.Ring2.Poller.Setters.{Store, load, update, update_self, update_ne}
use hnet.Ring2.Poller.Quiet.{Quiet, Quiet-keeps}
use hnet.Ring2.Poller.Wakeup.{
  unset, with_res, dispatch_op_first, dispatch_timeout_first, dispatch_timeout_second,
  dispatch_op_second,
}
use hnet.Ring2.Submitter
use hnet.Ring2.Submitter.Suspension.{suspend-Quiet}
use hnet.Ring2.Submitter.{suspend, Run, timed_result, ring_submit_timed, wakes_me, timeout_sqe}

abbrev pub IsEither : ℕ → ℕ → ℕ → Type 0
IsEither op timeout a = (a ≡ op) ⊎ (a ≡ timeout)

abbrev pub cqe : ℕ → ℤ → UsefulCqe
cqe at x = record { user_data = at; res = x }

-- The completions that arrive from a store on: the two of the call, in either order, among others.
pub data Arrivals (fiber op timeout : ℕ) (x y : ℤ) (h : Store) : List UsefulCqe → Type 0 where
  op_first :
      {before between : List UsefulCqe} {h1 h2 : Store} (after : List UsefulCqe)
      → Quiet fiber (IsEither op timeout) h before h1
      → Quiet fiber
          (IsEither op timeout)
          (update h1 op (with_res (unset fiber op timeout) x))
          between
          h2
      → Arrivals fiber op timeout x y h (before ++ cqe op x ∷ (between ++ cqe timeout y ∷ after))
  timeout_first :
      {before between : List UsefulCqe} {h1 h2 : Store} (after : List UsefulCqe)
      → Quiet fiber (IsEither op timeout) h before h1
      → Quiet fiber
          (IsEither op timeout)
          (update h1 timeout (with_res (unset fiber op timeout) y))
          between
          h2
      → Arrivals fiber op timeout x y h (before ++ cqe timeout y ∷ (between ++ cqe op x ∷ after))

module _ (fiber op timeout : ℕ) (apart : op ≢ timeout) (x y : ℤ) (x_set : x ≢ enocqe)
    (y_set : y ≢ enocqe) where
  -- The fiber goes on, and both results are in the store.
  abbrev Wakes : List UsefulCqe → Store → Type 0
  Wakes cs h =
      (h' : Store) × (suspend fiber cs h ≡ some (ok h'))
      × (h' op ≡ some (with_res (unset fiber op timeout) x))
      × (h' timeout ≡ some (with_res (unset fiber op timeout) y))

  suspend-Arrivals :
      {h : Store} {cs : List UsefulCqe}
      → h op ≡ some (unset fiber op timeout)
      → h timeout ≡ some (unset fiber op timeout)
      → Arrivals fiber op timeout x y h cs
      → Wakes cs h
  unfolding suspend
  suspend-Arrivals at_op at_timeout (op_first {h1} {h2} after q1 q2) =
      let s = with_res (unset fiber op timeout) x in
      let t = with_res (unset fiber op timeout) y in
      let op1 : h1 op ≡ some (unset fiber op timeout) = Quiet-keeps op (inl refl) q1 ∙ at_op in
      let timeout1 : h1 timeout ≡ some (unset fiber op timeout) =
        Quiet-keeps timeout (inr refl) q1 ∙ at_timeout in
      let op2 : h2 op ≡ some s = Quiet-keeps op (inl refl) q2 ∙ update_self h1 op s in
      let timeout2 : h2 timeout ≡ some (unset fiber op timeout) =
        Quiet-keeps timeout (inr refl) q2
        ∙ update_ne h1 op timeout s (λ e. apart (sym e))
        ∙ timeout1 in
      (
        update h2 timeout t,
        suspend-Quiet _ q1
            ∙ rw (dispatch_op_first fiber op timeout apart x y x_set y_set h1 op1 timeout1, suspend)
                (suspend-Quiet _ q2
                  ∙ rw
                      (
                        dispatch_timeout_second fiber op timeout apart x y x_set y_set h2 op2
                            timeout2,
                        suspend,
                      )
                      (ground arith)),
        update_ne h2 timeout op t apart ∙ op2,
        update_self h2 timeout t,
      )
  suspend-Arrivals at_op at_timeout (timeout_first {h1} {h2} after q1 q2) =
      let s = with_res (unset fiber op timeout) x in
      let t = with_res (unset fiber op timeout) y in
      let op1 : h1 op ≡ some (unset fiber op timeout) = Quiet-keeps op (inl refl) q1 ∙ at_op in
      let timeout1 : h1 timeout ≡ some (unset fiber op timeout) =
        Quiet-keeps timeout (inr refl) q1 ∙ at_timeout in
      let op2 : h2 op ≡ some (unset fiber op timeout) =
        Quiet-keeps op (inl refl) q2 ∙ update_ne h1 timeout op t apart ∙ op1 in
      let timeout2 : h2 timeout ≡ some t =
        Quiet-keeps timeout (inr refl) q2 ∙ update_self h1 timeout t in
      (
        update h2 op s,
        suspend-Quiet _ q1
            ∙ rw
                (
                  dispatch_timeout_first fiber op timeout apart x y x_set y_set h1 op1 timeout1,
                  suspend,
                )
                (suspend-Quiet _ q2
                  ∙ rw
                      (
                        dispatch_op_second fiber op timeout apart x y x_set y_set h2 op2 timeout2,
                        suspend,
                      )
                      (ground arith)),
        update_self h2 op s,
        update_ne h2 op timeout s (λ e. apart (sym e)) ∙ timeout2,
      )

-- The store when the fiber goes to sleep.
abbrev pub asleep : ℕ → ℕ → ℕ → Store → Store
asleep fiber op timeout h =
    update (update h op (unset fiber op timeout)) timeout (unset fiber op timeout)

module _ {u : IoUring} (yield : Ring u → Ring u) (n m : ℕ) (sqe : Sqe) (op timeout : ℕ)
    (dur : Duration) (r : Ring u) where
  -- The two submissions, which find a slot after `n` and after `m` rounds.
  abbrev pub first : ℤ × Ring u
  first = submitted yield n (record sqe { user_data = op; io_link = true }) true r

  abbrev pub second : ℤ × Ring u
  second = submitted yield m (timeout_sqe timeout dur) false first.1

lift-bind :
    {A B : Type 0} (m : Outcome A) (f : A → B)
    → Submitter.◌>>=◌ (some m) (λ a. some (ok (f a))) ≡ some (m >>= λ a. ok (f a))
lift-bind (ok a) f = refl
lift-bind (err e) f = refl

ring_submit_timed_steps :
    {u : IoUring} (yield : Ring u → Ring u) (fuel fiber op timeout : ℕ) (cqes : List UsefulCqe)
    (sqe : Sqe) (dur : Duration) (x y ret : ℤ) (r r1 r2 : Ring u) (h h' : Store)
    → submit u yield fuel (record sqe { user_data = op; io_link = true }) true r
      ≡ some (einprogress, r1)
    → submit u yield fuel (timeout_sqe timeout dur) false r1 ≡ some (ret, r2)
    → (leb_ℤ (pos 2) ret || ret ==ℤ pos 0) ≡ true
    → suspend fiber cqes (asleep fiber op timeout h) ≡ some (ok h')
    → h' op ≡ some (with_res (unset fiber op timeout) x)
    → h' timeout ≡ some (with_res (unset fiber op timeout) y)
    → ring_submit_timed u yield fuel fiber cqes op timeout sqe dur r h
      ≡ some (timed_result x y >>= λ res. ok (res, r2, h'))
unfolding ring_submit_timed
ring_submit_timed_steps yield fuel fiber op timeout cqes sqe dur x y ret r r1 r2 h h' e1 e2 handed
      woken at_op at_timeout =
    rw (e1, ring_submit_timed)
      (rw (e2, ring_submit_timed)
        (rw (handed, ring_submit_timed)
          (rw (woken, ring_submit_timed)
            (rw (at_op, load)
              (rw (at_timeout, load) (lift-bind (timed_result x y) (λ res. (res, r2, h'))))))))

-- A call with a timeout ends, if both submissions find a slot, the kernel says that it took both
-- entries, or answers 0, and both completions come in, neither with the code that stands for no
-- result. Its result is made of the results of the two alone, whichever of them comes first and
-- whatever completes in between.
pub ring_submit_timed_lem :
    {u : IoUring} (yield : Ring u → Ring u) (n m fuel fiber op timeout : ℕ) (cqes : List UsefulCqe)
    (sqe : Sqe) (dur : Duration) (x y : ℤ) (r : Ring u) (h : Store)
    → op ≢ timeout
    → x ≢ enocqe
    → y ≢ enocqe
    → n < fuel
    → m < fuel
    → IsFreeAfter yield n r
    → IsFreeAfter yield m (first yield n m sqe op timeout dur r).1
    → ((second yield n m sqe op timeout dur r).0 ≡ pos 0)
      ⊎ (pos 2 ≤ℤ (second yield n m sqe op timeout dur r).0)
    → Arrivals fiber op timeout x y (asleep fiber op timeout h) cqes
    → (h' : Store) × (ring_submit_timed u yield fuel fiber cqes op timeout sqe dur r h
        ≡ some
            (timed_result x y >>= λ res. ok (res, (second yield n m sqe op timeout dur r).1, h')))
unfolding enqueue
ring_submit_timed_lem {u} yield n m fuel fiber op timeout cqes sqe dur x y r h apart x_set y_set nf
      mf free free' handed arrivals =
    let a = asleep fiber op timeout h in
    let (h', woken, at_op, at_timeout) =
      suspend-Arrivals fiber op timeout apart x y x_set y_set {h = a}
        (update_ne (update h op (unset fiber op timeout)) timeout op (unset fiber op timeout) apart
          ∙ update_self h op (unset fiber op timeout))
        (update_self (update h op (unset fiber op timeout)) timeout (unset fiber op timeout))
        arrivals in
    (
      h',
      ring_submit_timed_steps yield fuel fiber op timeout cqes sqe dur x y
          (second yield n m sqe op timeout dur r).0 r (first yield n m sqe op timeout dur r).1
          (second yield n m sqe op timeout dur r).1 h h'
          (submit_lem yield n fuel (record sqe { user_data = op; io_link = true }) true r free nf
            ∙ ground arith)
          (submit_lem yield m fuel (timeout_sqe timeout dur) false
            (first yield n m sqe op timeout dur r).1 free' mf)
          (ground arith) woken at_op at_timeout,
    )

-- An operation that ended with no error keeps its result exactly when its timeout was cancelled or
-- not found; with any other timeout result the caller is told that the time ran out. A failed
-- operation is also told so when the timer fired, and throws what else the timer reports.
pub timed_result_lem :
    (x y : ℤ)
    → x ≢ esqe_timeout
    → ((timed_result x y ≡ ok x) ↔ ((y ≡ enoent) ⊎ (y ≡ ecanceled)))
      × ((timed_result x y ≡ ok esqe_timeout)
          ↔ ((y ≢ enoent) × (y ≢ ecanceled) × ((y ≡ etime) ⊎ (pos 0 ≤ℤ x))))
unfolding timed_result
timed_result_lem x y op_set = ((ground arith, ground arith), (ground arith, ground arith))
