-- ===== src/Ring2/Poller/Delivery.antt =====
-- What `TryPoll` hands on, and what it loses.
use hnet.Prelude.{
  ℕ, ◌+◌, ◌^◌, ◌<◌, ◌≤◌, ◌≡◌, List, [], ◌∷◌, ◌++◌, Option, none, some, arith, inl, inr,
  append_assoc, length, ap, ◌∙◌,
}
use hnet.Prelude.Results.{ok, Result-cases}
use hnet.Ring2.Kernel.{UsefulCqe, IoUring, IsAccounted, IsFifo}
use hnet.Ring2.Ring.{Ring, size_add, consume, poll, try_poll, try_poll_many}
use hnet.Ring2.Ring.Accounting.{
  IsBalanced, poll-IsBalanced, try_poll-IsBalanced, try_poll_many-IsBalanced,
}
use hnet.Ring2.Poller.Setters.{Store, dispatch, dispatch_all}
use hnet.Ring2.Poller.{RingPoller, deliver, poll_once, poll_fiber, poll_fibers}

module _ {u : IoUring} (f : IsFifo u) where
  try_poll_head :
      (r : Ring u) (c : UsefulCqe) (cs : List UsefulCqe)
      → f.ready r.ring ≡ c ∷ cs
      → (r' : Ring u) × (new : List UsefulCqe) × (try_poll u r ≡ ok (some c, r'))
        × (f.ready r'.ring ≡ cs ++ new)
  unfolding try_poll consume
  try_poll_head r c cs e =
      let q = (u.peek_cqe r.ring).2 in
      (
        consume u (record r { ring = q }),
        f.arrived r.ring ++ f.arrived q,
        ground (arith, f.peek_head r.ring e),
        f.seen_tail q ((f.peek_head r.ring e).2 ∙ ap (λ l. l ++ f.arrived r.ring) e)
            ∙ append_assoc cs _ _,
      )

  poll_head :
      (r : Ring u) (c : UsefulCqe) (cs : List UsefulCqe)
      → f.ready r.ring ≡ c ∷ cs
      → (r' : Ring u) × (new : List UsefulCqe) × (poll u r ≡ ok (c, r'))
        × (f.ready r'.ring ≡ cs ++ new)
  unfolding poll consume
  poll_head r c cs e =
      let q = (u.wait_cqe r.ring).2 in
      (
        consume u (record r { ring = q }),
        f.arrived r.ring ++ f.arrived q,
        ground (arith, f.wait_head r.ring e),
        f.seen_tail q ((f.wait_head r.ring e).2 ∙ ap (λ l. l ++ f.arrived r.ring) e)
            ∙ append_assoc cs _ _,
      )

  -- While the attempts are below the limit, `TryPoll` takes the oldest completion alone.
  pub poll_once_head :
      (p : RingPoller u) (c : UsefulCqe) (cs : List UsefulCqe)
      → size_add p.attempts 1 < p.max_attempts
      → f.ready p.ring.ring ≡ c ∷ cs
      → (p' : RingPoller u) × (new : List UsefulCqe) × (poll_once u p ≡ ok (some c, p'))
        × (f.ready p'.ring.ring ≡ cs ++ new)
  unfolding poll_once
  poll_once_head p c cs h e =
      let (r, new, took, rest) = try_poll_head p.ring c cs e in
      (record p { ring = r; attempts = size_add p.attempts 1 }, new, ground (arith, took), rest)

  -- On a kernel that keeps the order, the attempt that reaches the limit takes two completions when two are ready, and hands on the
  -- second: the first is in the result no more than it is left in the queue.
  pub poll_once_loses :
      (p : RingPoller u) (lost c : UsefulCqe) (cs : List UsefulCqe)
      → p.max_attempts ≤ size_add p.attempts 1
      → f.ready p.ring.ring ≡ lost ∷ c ∷ cs
      → (p' : RingPoller u) × (new : List UsefulCqe) × (poll_once u p ≡ ok (some c, p'))
        × (f.ready p'.ring.ring ≡ cs ++ new)
  unfolding poll_once
  poll_once_loses p lost c cs h e =
      let (r, new, took, rest) = try_poll_head p.ring lost (c ∷ cs) e in
      let (r', new', took', rest') = poll_head r c (cs ++ new) rest in
      (
        record p { ring = r'; attempts = size_add p.attempts 1 },
        new ++ new',
        ground (arith, took, took'),
        rest' ∙ append_assoc cs new new',
      )

module _ {u : IoUring} where
  -- If the attempts are below the limit, and the limit is below 2 ^ 64, they are below it after a call
  -- that returns: the counter does not wrap.
  pub attempts-poll_fiber :
      (p p' : RingPoller u) (h h' : Store) (fiber : Option ℕ)
      → p.attempts < p.max_attempts
      → p.max_attempts < 2 ^ 64
      → poll_fiber u p h ≡ ok (fiber, p', h')
      → (p'.attempts < p'.max_attempts) × (p'.max_attempts ≡ p.max_attempts)
  unfolding poll_fiber
  attempts-poll_fiber p p' h h' fiber below fits e = ground arith

  pub poll_once-IsBalanced :
      (k : IsAccounted u) (p p' : RingPoller u) (c : Option UsefulCqe)
      → IsBalanced k p.ring
      → poll_once u p ≡ ok (c, p')
      → IsBalanced k p'.ring
  unfolding poll_once
  poll_once-IsBalanced k p p' c b e = elim (Result-cases (try_poll u p.ring)) [
    | inr (x, failed) ↦ ground (arith, failed)
    | inl ((c', r), took) ↦
        let b' : IsBalanced k r = try_poll-IsBalanced k p.ring r c' b took in
        elim (Result-cases (poll u r)) [
          | inr (x, failed) ↦ ground (arith, took, failed)
          | inl ((c'', r'), waited) ↦
              ground (arith, took, waited, poll-IsBalanced k r r' c'' b' waited)
        ]
  ]

  -- A call of `TryPoll` that returns keeps the count of the outstanding completions right.
  pub poll_fiber-IsBalanced :
      (k : IsAccounted u) (p p' : RingPoller u) (h h' : Store) (fiber : Option ℕ)
      → IsBalanced k p.ring
      → poll_fiber u p h ≡ ok (fiber, p', h')
      → IsBalanced k p'.ring
  unfolding poll_fiber deliver
  poll_fiber-IsBalanced k p p' h h' fiber b e = elim (Result-cases (poll_once u p)) [
    | inr (x, failed) ↦ ground (arith, failed)
    | inl ((none, q), took) ↦ ground (arith, took, poll_once-IsBalanced k p q none b took)
    | inl ((some c, q), took) ↦ ground (arith, took, poll_once-IsBalanced k p q (some c) b took)
  ]

length-dispatch_all :
    (cs : List UsefulCqe) (h h' : Store) (fibers : List (Option ℕ))
    → dispatch_all cs h ≡ ok (fibers, h')
    → length fibers ≡ length cs
unfolding dispatch_all
length-dispatch_all [] h h' fibers e = ground arith
length-dispatch_all (c ∷ cs) h h' fibers e = elim (Result-cases (dispatch c h)) [
  | inr (x, failed) ↦ ground (arith, failed)
  | inl ((w, g), took) ↦ elim (Result-cases (dispatch_all cs g)) [
    | inr (x, failed) ↦ ground (arith, took, failed)
    | inl ((ws, g'), rest) ↦ ground (arith, took, rest, length-dispatch_all cs g g' ws rest)
  ]
]

-- `TryPollMany` returns one slot for each completion that it takes, at most 16, and counts all of
-- them off.
pub poll_fibers_lem :
    {u : IoUring} (k : IsAccounted u) (p p' : RingPoller u) (h h' : Store)
    (fibers : List (Option ℕ))
    → IsBalanced k p.ring
    → poll_fibers u p h ≡ ok (fibers, p', h')
    → IsBalanced k p'.ring
      × (length fibers ≤ 16)
      × (p'.ring.pending_count + length fibers ≡ p.ring.pending_count)
unfolding poll_fibers
poll_fibers_lem {u} k p p' h h' fibers b e =
    elim (Result-cases (dispatch_all (try_poll_many u p.ring).0 h)) [
      | inr (x, failed) ↦ ground (arith, failed)
      | inl ((ws, g), rest) ↦ ground (
        arith,
        rest,
        length-dispatch_all (try_poll_many u p.ring).0 h g ws rest,
        try_poll_many-IsBalanced k p.ring b,
      )
    ]
