-- ===== src/Netring/Executor/Owners/Rounds.antt =====
-- Every round of the dispatch loop keeps the owners.
use hnet.Prelude.{ℕ, ◌≡◌, refl, List, [], inl, inr, ◌∷◌, ◌++◌, false, Option-cases, some}
use hnet.Prelude.Results.{ok, After, After-bind, After-each, After-Ends, Result-cases, ◌>>=◌}
use hnet.Five.ObjectPool.{get}
use hnet.Ring2.Kernel.{UsefulCqe, IoUring}
use hnet.Netring.Uring.{poll_cookie, recv_cookie}
use hnet.Netring.Request.{Request}
use hnet.Netring.Executor.{
  Handler, Holder, monostate, request, handler, World, Arrival, store, need, out_of_bounds,
  null_sqe, release, arrive, start_handler, resume_handler, retire, accept_request, dispatch_cookie,
  loop_step, dispatch_loop,
}
use hnet.Netring.Executor.Copies.{store_self}
use hnet.Netring.Executor.Owners.{Allocators, assets, IsOwned}
use hnet.Netring.Executor.Owners.Ends.{ends-IsSound, ended}
use hnet.Netring.Executor.Owners.Waits.{IsExpected, start_handler-waits}
use hnet.Netring.Executor.Owners.Takes.{takes-IsSound, begun}

module _ {u : IoUring} (fd : ℕ) where
  module _ (al : Allocators) where
    accept_request-IsOwned :
        (at : ℕ) (cqe : UsefulCqe) (held taken : Request) (w : World u)
        → w.holders at ≡ request held
        → taken.iov_base ≡ held.iov_base
        → IsOwned al w
        → After (IsOwned al) (accept_request u fd at cqe taken w)
    unfolding accept_request retire
    accept_request-IsOwned at cqe held taken w holds moved sound =
        let new = (get w.holder_pool).0 in
        let h = begun al (assets w) sound at cqe held taken taken holds moved in
        let before : u.Q → World u = λ ring. record w {
          ring = ring;
          holder_pool = (get w.holder_pool).1;
          stacks = (get w.stacks).1;
          requests = (get w.requests).1;
          freed = release (w.holders new) ++ w.freed;
          holders = store at (request (get w.requests).0) (store new (handler h) w.holders);
        } in
        After-each (IsOwned al)
          (need null_sqe (recv_cookie u fd (get w.requests).0.iov_len at false w.ring)) _
          (λ ring.
            After-bind (λ w'. IsOwned al (retire u fd new w')) (IsOwned al)
              (start_handler u fd new h (before ring)) _
              (After-Ends (λ w'. IsOwned al (retire u fd new w')) IsExpected
                (start_handler u fd new h (before ring))
                (start_handler-waits fd (λ w'. IsOwned al (retire u fd new w')) new h (before ring)
                  (λ sent ring' to second bytes of_pool sends.
                    rw
                      (
                        store_self new (handler (record h { reply = some sent }))
                            (before ring).holders,
                        retire,
                      )
                      (takes-IsSound al (assets w) sound at cqe held taken sent holds moved
                        of_pool))))
              (λ w' owned. owned))

    resume-IsOwned :
        (at : ℕ) (cqe : UsefulCqe) (h : Handler) (w : World u)
        → w.holders at ≡ handler h
        → IsOwned al w
        → After (IsOwned al) (
            resume_handler u fd at (record h { last_cqe = cqe }) w >>= λ w'. ok (retire u fd at w'))
    unfolding resume_handler retire
    resume-IsOwned at cqe h w holds sound = elim (Option-cases h.reply) [
      | inl empty ↦ rw (empty, resume_handler) tt
      | inr (sent, waits) ↦
          let last = ended al (assets w) sound at h cqe sent holds waits in
          rw (waits, resume_handler)
            (rw (store_self at (handler last) w.holders, retire)
              (ends-IsSound al (assets w) sound at h cqe sent holds waits))
    ]

    dispatch_held-IsOwned :
        (cqe : UsefulCqe) (a : Arrival) (w : World u) (x : Holder)
        → w.holders cqe.user_data ≡ x
        → IsOwned al w
        → After (IsOwned al) (dispatch_cookie u fd cqe a w)
    unfolding dispatch_cookie arrive
    dispatch_held-IsOwned cqe a w monostate holds sound = rw (holds, dispatch_cookie) tt
    dispatch_held-IsOwned cqe a w (request r) holds sound =
        rw (holds, dispatch_cookie)
          (After-each (IsOwned al) (need out_of_bounds r.iov_base) _ (λ base.
            accept_request-IsOwned cqe.user_data cqe r (record r { addr = a.from })
              (arrive u fd a base r w).0 holds refl sound))
    dispatch_held-IsOwned cqe a w (handler h) holds sound =
        rw (holds, dispatch_cookie) (resume-IsOwned cqe.user_data cqe h w holds sound)

    dispatch-IsOwned :
        (cqe : UsefulCqe) (a : Arrival) (w : World u)
        → IsOwned al w
        → After (IsOwned al) (dispatch_cookie u fd cqe a w)
    unfolding dispatch_cookie arrive
    dispatch-IsOwned cqe a w sound =
        dispatch_held-IsOwned cqe a w (w.holders cqe.user_data) refl sound

    pub loop_step-IsOwned :
        (a : Arrival) (w : World u) → IsOwned al w → After (IsOwned al) (loop_step u fd a w)
    unfolding loop_step
    loop_step-IsOwned a w sound = elim (Result-cases (poll_cookie u w.ring)) [
      | inl ((cqe, q), polled) ↦
          rw (polled, loop_step) (dispatch-IsOwned cqe a (record w { ring = q }) sound)
      | inr (e, failed) ↦ rw (failed, loop_step) tt
    ]

    pub dispatch_loop-IsOwned :
        (arrivals : List Arrival) (w : World u)
        → IsOwned al w
        → After (IsOwned al) (dispatch_loop u fd arrivals w)
    unfolding dispatch_loop
    dispatch_loop-IsOwned [] w sound = sound
    dispatch_loop-IsOwned (a ∷ rest) w sound =
        After-bind (IsOwned al) (IsOwned al) (loop_step u fd a w) _ (loop_step-IsOwned a w sound)
          (λ w' sound'. dispatch_loop-IsOwned rest w' sound')
