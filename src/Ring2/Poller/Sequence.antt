-- ===== src/Ring2/Poller/Sequence.antt =====
-- One completion at a time against many at a time: `TryPoll` called again and again.
use hnet.Prelude.{
  ℕ, zero, suc, ◌+◌, ◌^◌, ◌<◌, ◌≡◌, refl, sym, ◌∙◌, List, [], ◌∷◌, ◌++◌, append_assoc, append-nil,
  Option, inl, inr, length, arith,
}
use hnet.Prelude.Results.{ok, Result-cases, ◌>>=◌}
use hnet.Ring2.Errors.{Outcome}
use hnet.Ring2.Kernel.{UsefulCqe, IoUring, IsFifo}
use hnet.Ring2.Ring.{size_add}
use hnet.Ring2.Poller.Setters.{Store, dispatch, dispatch_all}
use hnet.Ring2.Poller.{RingPoller, deliver, poll_fiber}
use hnet.Ring2.Poller.Delivery.{poll_once_head, attempts-poll_fiber}

-- What a scheduler gets that calls `TryPoll` a number of times.
unfoldable pub poll_times :
    (u : IoUring) → ℕ → RingPoller u → Store → Outcome (List (Option ℕ) × RingPoller u × Store)
poll_times u zero p h = ok ([], p, h)
poll_times u (suc n) p h = do
  (fiber, p', h') ← poll_fiber u p h
  (fibers, p'', h'') ← poll_times u n p' h'
  ok (fiber ∷ fibers, p'', h'')

module _ {u : IoUring} (f : IsFifo u) where
  -- One call: the oldest completion is dispatched, and the attempts start anew.
  poll_fiber_head :
      (p : RingPoller u) (h g : Store) (c : UsefulCqe) (cs : List UsefulCqe) (fiber : Option ℕ)
      → size_add p.attempts 1 < p.max_attempts
      → f.ready p.ring.ring ≡ c ∷ cs
      → dispatch c h ≡ ok (fiber, g)
      → (p' : RingPoller u) × (new : List UsefulCqe) × (poll_fiber u p h ≡ ok (fiber, p', g))
        × (f.ready p'.ring.ring ≡ cs ++ new)
        × (p'.attempts ≡ 0)
  unfolding poll_fiber deliver
  poll_fiber_head p h g c cs fiber below e woken =
      let (q, new, took, rest) = poll_once_head f p c cs below e in
      (record q { attempts = 0 }, new, rw (took, poll_fiber) (rw (woken, deliver)), rest, refl)

  -- When the attempts so far leave at least two below the limit of the busy polling, the limit fits in
  -- 64 bits, and no dispatch throws, as many calls of `TryPoll` as completions are taken from the head
  -- of the queue dispatch just these, in the order in which they came in: the fibers and the setters are
  -- those that `TryPollMany` leaves when it takes the same completions at once.
  pub poll_times-dispatch_all :
      (cs later : List UsefulCqe) (p : RingPoller u) (h g : Store) (fibers : List (Option ℕ))
      → p.attempts + 1 < p.max_attempts
      → p.max_attempts < 2 ^ 64
      → f.ready p.ring.ring ≡ cs ++ later
      → dispatch_all cs h ≡ ok (fibers, g)
      → (p' : RingPoller u) × (new : List UsefulCqe) × (poll_times u (length cs) p h
          ≡ ok (fibers, p', g))
        × (f.ready p'.ring.ring ≡ later ++ new)
  unfolding poll_times dispatch_all
  poll_times-dispatch_all [] later p h g fibers below fits e all =
      (p, [], ground (arith, all), e ∙ sym (append-nil later))
  poll_times-dispatch_all (c ∷ cs) later p h g fibers below fits e all =
      elim (Result-cases (dispatch c h)) [
        | inr (x, failed) ↦ ground (arith, failed)
        | inl ((w, h1), woken) ↦ elim (Result-cases (dispatch_all cs h1)) [
          | inr (x, failed) ↦ ground (arith, woken, failed)
          | inl ((ws, h2), rest) ↦
              let (q, new, once, ready, anew) =
                poll_fiber_head p h h1 c (cs ++ later) w (omega arith) e woken in
              let kept = attempts-poll_fiber p q h h1 w (omega arith) fits once in
              let (q', new', times, ready') =
                poll_times-dispatch_all cs (later ++ new) q h1 h2 ws (omega (arith, anew, kept))
                  (omega (arith, kept)) (ready ∙ append_assoc cs later new) rest in
              (
                q',
                new ++ new',
                rw (once, poll_times) (rw (times, poll_times) (ground (arith, woken, rest))),
                ready' ∙ append_assoc later new new',
              )
        ]
      ]
