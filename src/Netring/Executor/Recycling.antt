-- ===== src/Netring/Executor/Recycling.antt =====
-- What goes back to the pools when a send is done, and how long the next receive is.
use hnet.Prelude.{ℕ, ◌*◌, ◌≤◌, ◌≡◌, refl, ap, ◌∙◌, false, [], ◌∷◌, ◌++◌, some, none, true, length}
use hnet.Prelude.Results.{ok}
use hnet.Five.ObjectPool.{get, put}
use hnet.Ring2.Kernel.{UsefulCqe, IoUring}
use hnet.Netring.Uring.{poll_cookie, recv_cookie, send_cookie}
use hnet.Netring.Request.{Request}
use hnet.Netring.Executor.{
  Handler, handler, World, Arrival, store, addr_of, resume_handler, retire, dispatch_cookie,
  loop_step, dispatch_loop,
}
use hnet.Netring.Executor.Copies.{store_self}
use hnet.Netring.Executor.Replies.{
  new, fresh, reply, IsReceived, waiting_handler, loop_step_replies,
}

module _ {u : IoUring} (fd : ℕ) where
  -- A round in which a handler's send has completed ends the handler. Its reply is the request that
  -- is drawn next, its stack the stack, and its object the object, before any that were there.
  pub loop_step_recycles :
      (a : Arrival) (w : World u) (cqe : UsefulCqe) (q : u.Q) (h : Handler) (sent : Request)
      → poll_cookie u w.ring ≡ ok (cqe, q)
      → w.holders cqe.user_data ≡ handler h
      → h.reply ≡ some sent
      → (w' : World u) × (loop_step u fd a w ≡ ok w')
        × (w'.ring ≡ q)
        × (get w'.requests ≡ (sent, w.requests))
        × (get w'.stacks ≡ (h.stack, w.stacks))
        × (get w'.holder_pool ≡ (cqe.user_data, w.holder_pool))
  unfolding loop_step dispatch_cookie resume_handler retire get put
  loop_step_recycles a w cqe q h sent polled held waits =
      let at = cqe.user_data in
      let ended : Handler = record h { last_cqe = cqe; reply = none; finished = true } in
      (
        record w {
          ring = q;
          requests = put sent w.requests;
          holders = store at (handler ended) w.holders;
          stacks = put h.stack w.stacks;
          holder_pool = put at w.holder_pool;
        },
        rw (polled, loop_step)
            (rw (held, dispatch_cookie)
              (rw (waits, resume_handler)
                (rw (store_self at (handler ended) w.holders, retire) refl))),
        refl,
        refl,
        refl,
        refl,
      )

  -- After a datagram is answered, when its send has completed, the request that the next receive is to
  -- go into is that of the reply, and offers the kernel twice the length of the datagram, whatever the
  -- length of its buffer.
  pub dispatch_loop_shrinks :
      (a b : Arrival) (w : World u) (cqe done : UsefulCqe) (q q1 q2 q3 : u.Q) (r : Request)
      (from to : ℕ)
      → IsReceived fd a w cqe q r from to
      → length a.payload * 2 ≤ length (w.buffers to)
      → recv_cookie u fd (fresh fd a w).iov_len cqe.user_data false q ≡ some q1
      → send_cookie u fd (a.payload ++ a.payload) (addr_of a.from) (new fd a w) q1 ≡ some q2
      → poll_cookie u q2 ≡ ok (done, q3)
      → done.user_data ≡ new fd a w
      → (w' : World u) × (dispatch_loop u fd (a ∷ b ∷ []) w ≡ ok w')
        × ((get w'.requests).0.iov_len ≡ length a.payload * 2)
        × ((get w'.requests).0.iov_base ≡ some to)
  unfolding dispatch_loop
  dispatch_loop_shrinks a b w cqe done q q1 q2 q3 r from to k room posted sent polled mine =
      let (w1, first, ring, posted_one, waits, pool) =
        loop_step_replies fd a w cqe q q1 q2 r from to k room posted sent in
      let h = waiting_handler (new fd a w) (get w.stacks).0 cqe r (reply fd a w) a in
      let (w2, second, ring2, drawn, stack, object) =
        loop_step_recycles b w1 done q3 h
          (record (reply fd a w) { iov_len = length a.payload * 2; addr = a.from })
          (ap (λ r'. poll_cookie u r') ring ∙ polled) (ap w1.holders mine ∙ waits) refl in
      (
        w2,
        rw (first, dispatch_loop) (rw (second, dispatch_loop) refl),
        ap (λ d. d.0.iov_len) drawn,
        ap (λ d. d.0.iov_base) drawn ∙ k.reply_base,
      )
