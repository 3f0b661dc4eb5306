-- ===== src/Netring/Uring/Cookies.antt =====
-- What `poll_cookie` takes from the completion queue.
use hnet.Prelude.{
  ℕ, zero, suc, ◌+◌, ◌<◌, ◌≡◌, refl, ◌∙◌, ap, Option, none, some, List, ◌∷◌, ◌++◌, append_assoc,
  arith,
}
use hnet.Prelude.Int.{pos, ==ℤ→eq}
use hnet.Prelude.Results.{ok}
use hnet.Ring2.Kernel.{UsefulCqe, IoUring, IsAccounted, IsFifo}
use hnet.Netring.Uring.{peek_attempts, peek_loop, finish_poll, poll_for, poll_cookie}

module _ (u : IoUring) where
  poll_for_now :
      (attempts : ℕ) (q : u.Q)
      → (u.peek_cqe q).0 ≡ pos 0
      → poll_for u (suc attempts) q ≡ ok ((u.peek_cqe q).1, u.cqe_seen (u.peek_cqe q).2)
  unfolding poll_for
  poll_for_now attempts q e = ground arith

  -- The first attempt ends the poll if it finds a completion.
  pub poll_cookie_now :
      (q : u.Q)
      → (u.peek_cqe q).0 ≡ pos 0
      → poll_cookie u q ≡ ok ((u.peek_cqe q).1, u.cqe_seen (u.peek_cqe q).2)
  unfolding poll_cookie
  poll_cookie_now q e = poll_for_now 149_999_999 q e

module _ {u : IoUring} (f : IsFifo u) where
  poll_for_head :
      (attempts : ℕ) (q : u.Q) (c : UsefulCqe) (cs : List UsefulCqe)
      → f.ready q ≡ c ∷ cs
      → (q' : u.Q) × (new : List UsefulCqe) × (poll_for u (suc attempts) q ≡ ok (c, q'))
        × (f.ready q' ≡ cs ++ new)
  poll_for_head attempts q c cs e =
      let q' = (u.peek_cqe q).2 in
      (
        u.cqe_seen q',
        f.arrived q ++ f.arrived q',
        poll_for_now u attempts q (f.peek_head q e).0
            ∙ ap (λ c'. ok (c', u.cqe_seen q')) (f.peek_head q e).1,
        f.seen_tail q' ((f.peek_head q e).2 ∙ ap (λ l. l ++ f.arrived q) e) ∙ append_assoc cs _ _,
      )

  -- When a completion is ready, the first attempt takes the oldest one, and only that one.
  pub poll_cookie_head :
      (q : u.Q) (c : UsefulCqe) (cs : List UsefulCqe)
      → f.ready q ≡ c ∷ cs
      → (q' : u.Q) × (new : List UsefulCqe) × (poll_cookie u q ≡ ok (c, q'))
        × (f.ready q' ≡ cs ++ new)
  unfolding poll_cookie
  poll_cookie_head q c cs e = poll_for_head 149_999_999 q c cs e

module _ {u : IoUring} (k : IsAccounted u) where
  peek_loop-outstanding :
      (left : ℕ) (q : u.Q) → k.outstanding (peek_loop u left q).1 ≡ k.outstanding q
  unfolding peek_loop
  peek_loop-outstanding zero q = refl
  peek_loop-outstanding (suc left) q =
      ground (arith, k.at_peek_cqe q, peek_loop-outstanding left (u.peek_cqe q).2)

  peek_loop-completed :
      (left : ℕ) (q : u.Q) (c : UsefulCqe)
      → (peek_loop u left q).0 ≡ some c
      → 0 < k.completed (peek_loop u left q).1
  unfolding peek_loop
  peek_loop-completed zero q c e = cc
  peek_loop-completed (suc left) q c e = ground (
    arith,
    k.peeked q,
    ==ℤ→eq (u.peek_cqe q).0 (pos 0),
    peek_loop-completed left (u.peek_cqe q).2 c,
  )

  finish_poll-outstanding :
      (found : Option UsefulCqe) (q q' : u.Q) (c : UsefulCqe)
      → ((d : UsefulCqe) → found ≡ some d → 0 < k.completed q)
      → finish_poll u found q ≡ ok (c, q')
      → k.outstanding q' + 1 ≡ k.outstanding q
  unfolding finish_poll
  finish_poll-outstanding (some d) q q' c there e = ground (arith, there d refl, k.at_cqe_seen q)
  finish_poll-outstanding none q q' c there e = ground (
    arith,
    ==ℤ→eq (u.wait_cqe q).0 (pos 0),
    k.at_wait_cqe q,
    k.waited q,
    k.at_cqe_seen (u.wait_cqe q).2,
  )

  poll_for-outstanding :
      (attempts : ℕ) (q q' : u.Q) (c : UsefulCqe)
      → poll_for u attempts q ≡ ok (c, q')
      → k.outstanding q' + 1 ≡ k.outstanding q
  unfolding poll_for
  poll_for-outstanding attempts q q' c e =
      finish_poll-outstanding (peek_loop u attempts q).0 (peek_loop u attempts q).1 q' c
        (λ d h. peek_loop-completed attempts q d h) e
      ∙ peek_loop-outstanding attempts q

  -- A completion that `poll_cookie` returns is taken from the outstanding ones, whether an attempt or
  -- the wait found it, and no other is.
  pub poll_cookie-outstanding :
      (q q' : u.Q) (c : UsefulCqe)
      → poll_cookie u q ≡ ok (c, q')
      → k.outstanding q' + 1 ≡ k.outstanding q
  unfolding poll_cookie
  poll_cookie-outstanding q q' c e = poll_for-outstanding peek_attempts q q' c e
