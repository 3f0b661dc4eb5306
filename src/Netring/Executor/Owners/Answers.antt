-- ===== src/Netring/Executor/Owners/Answers.antt =====
-- What a round does with a datagram, where everything has its owner.
use hnet.Prelude.{
  is, ℕ, ◌+◌, ◌*◌, ◌≤◌, ◌≡◌, ◌≢◌, refl, ap, sym, ◌∙◌, List, ◌++◌, false, some, length, arith,
}
use hnet.Prelude.Int.{pos}
use hnet.Prelude.Results.{ok}
use hnet.Five.ObjectPool.{get}
use hnet.Ring2.Kernel.{UsefulCqe, IoUring}
use hnet.Netring.Uring.{poll_cookie, recv_cookie, send_cookie}
use hnet.Netring.Request.{Request}
use hnet.Netring.Executor.{Holder, monostate, request, handler, World, Arrival, addr_of, loop_step}
use hnet.Netring.Executor.Replies.{new, fresh, reply, waiting_handler, loop_step_replies}
use hnet.Netring.Executor.Owners.{Allocators, IsOwned, assets, buffer_in}
use hnet.Netring.Executor.Owners.Weights.{owns, weigh, weigh-store, get-factory}
use hnet.Netring.Executor.Owners.Ends.{used-made}
use hnet.Netring.Executor.Owners.Takes.{requests_drawn, apart}

-- One object's part in a sum.
weigh-part :
    (f : Holder → ℕ) (at : ℕ) (holders : ℕ → Holder) (made : List ℕ)
    → weigh (is at) made ≡ 1
    → f monostate ≡ 0
    → f (holders at) ≤ weigh (λ a. f (holders a)) made
weigh-part f at holders made once nothing =
    omega (arith, weigh-store f at monostate holders made once)

module _ {u : IoUring} (fd : ℕ) (al : Allocators) (a : Arrival) (w : World u) (owned : IsOwned al w)
    (live : (b : ℕ)
      → weigh (is b) (al.buffer_log.made (get (get w.requests).1).1.state)
        ≤ weigh (is b) w.freed + 1) where
  -- The buffer of a request that the kernel has is not that of the reply.
  reply_apart :
      (at from to : ℕ) (cqe : UsefulCqe) (r : Request)
      → w.holders at ≡ request r
      → r.iov_base ≡ some from
      → (reply fd a w).iov_base ≡ some to
      → to ≢ from
  reply_apart at from to cqe r held base reply_base same =
      let once = used-made al (assets w) owned at (λ e. ground (arith, held)) in
      let drawn = requests_drawn al (assets w) owned at cqe r r r held refl in
      let one : is from from ≡ 1 = ground arith in
      omega (
        arith,
        weigh-part (buffer_in from) at w.holders _ once refl,
        ap (buffer_in from) held,
        ap (owns from) base,
        one,
        drawn from w.requests owned.request_factory,
        drawn from (get w.requests).1 (get-factory w.requests ∙ owned.request_factory),
        ap (owns from) reply_base,
        ap (is from) same,
        owned.buffers from,
        live from,
      )

  -- In a world where everything is owned once, and malloc returns an address again only when it was
  -- freed, a round in which a datagram has come in that fits its request, and half of the buffer of
  -- the reply, posts the next receive and then hands the kernel one send: the datagram's bytes twice
  -- over, to its sender.
  pub loop_step_answers :
      (cqe : UsefulCqe) (q q1 q2 : u.Q) (r : Request) (from to : ℕ)
      → poll_cookie u w.ring ≡ ok (cqe, q)
      → w.holders cqe.user_data ≡ request r
      → cqe.res ≡ pos (length a.payload)
      → r.iov_base ≡ some from
      → length a.payload ≤ r.iov_len
      → r.iov_len ≤ length (w.buffers from)
      → (reply fd a w).iov_base ≡ some to
      → length a.payload * 2 ≤ length (w.buffers to)
      → recv_cookie u fd (fresh fd a w).iov_len cqe.user_data false q ≡ some q1
      → send_cookie u fd (a.payload ++ a.payload) (addr_of a.from) (new fd a w) q1 ≡ some q2
      → (w' : World u) × (loop_step u fd a w ≡ ok w')
        × (w'.ring ≡ q2)
        × (w'.holders cqe.user_data ≡ request (fresh fd a w))
        × (w'.holders (new fd a w)
            ≡ handler (waiting_handler (new fd a w) (get w.stacks).0 cqe r (reply fd a w) a))
        × (w'.requests ≡ (get (get w.requests).1).1)
  loop_step_answers cqe q q1 q2 r from to polled held size base fits allocated reply_base room
        posted sent =
      loop_step_replies fd a w cqe q q1 q2 r from to
        (record {
          polled = polled;
          held = held;
          size = size;
          base = base;
          fits = fits;
          allocated = allocated;
          reply_base = reply_base;
          apart = reply_apart cqe.user_data from to cqe r held base reply_base;
          unused = λ e. apart al (assets w) owned cqe.user_data cqe r r r held refl (sym e);
        })
        room posted sent
