-- ===== src/Netring/Executor/Replies.antt =====
-- A datagram is answered by its bytes twice over, and what happens to one that is too long for that.
use hnet.Prelude.{
  ℕ, ◌*◌, ◌<◌, ◌≤◌, ◌≡◌, ◌≢◌, refl, sym, ◌∙◌, false, List, ◌++◌, none, some, length, take_all,
  arith,
}
use hnet.Prelude.Int.{pos}
use hnet.Prelude.Results.{ok, err, ◌>>=◌}
use hnet.Prelude.Memory.{overwrite, take-overwrite, length-overwrite}
use hnet.Five.ObjectPool.{get}
use hnet.Ring2.Kernel.{UsefulCqe, IoUring}
use hnet.Netring.Uring.{poll_cookie, recv_cookie, send_cookie}
use hnet.Netring.Request.{Request}
use hnet.Netring.Executor.{
  out_of_bounds, Handler, request, handler, World, Arrival, store, addr_of, release, arrive,
  start_handler, retire, accept_request, dispatch_cookie, loop_step,
}
use hnet.Netring.Executor.Copies.{
  store_self, store_ne, doubled, start_handler-ok, start_handler-err,
}

-- The handler that takes a request, as it waits for its send.
abbrev pub waiting_handler : ℕ → ℕ → UsefulCqe → Request → Request → Arrival → Handler
waiting_handler new stack cqe r reply a = record {
  request = record r { addr = a.from };
  stack = stack;
  cookie = new;
  last_cqe = cqe;
  finished = false;
  reply = some (record reply { iov_len = length a.payload * 2; addr = a.from });
}

module _ {u : IoUring} (fd : ℕ) (a : Arrival) (w : World u) where
  -- What the loop takes from its three pools when a datagram comes in.
  abbrev pub new : ℕ
  new = (get w.holder_pool).0

  abbrev pub fresh : Request
  fresh = (get w.requests).0

  abbrev pub reply : Request
  reply = (get (get w.requests).1).0

  -- A receive has completed: its cookie points to its request, whose buffer takes the datagram.
  pub record IsReceived (cqe : UsefulCqe) (q : u.Q) (r : Request) (from to : ℕ) : Type 0 where
    pub polled : poll_cookie u w.ring ≡ ok (cqe, q)
    pub held : w.holders cqe.user_data ≡ request r
    pub size : cqe.res ≡ pos (length a.payload)
    pub base : r.iov_base ≡ some from
    pub fits : length a.payload ≤ r.iov_len
    pub allocated : r.iov_len ≤ length (w.buffers from)
    pub reply_base : reply.iov_base ≡ some to
    pub apart : to ≢ from
    pub unused : new ≢ cqe.user_data

  -- The datagram in its buffer.
  abbrev pub filled : ℕ → List ℕ
  filled from = overwrite a.payload (w.buffers from)

  -- The handler before it runs.
  abbrev started : UsefulCqe → Request → Handler
  started cqe r = record {
    request = record r { addr = a.from };
    stack = (get w.stacks).0;
    cookie = new;
    last_cqe = cqe;
    finished = false;
    reply = none;
  }

  abbrev after_arrival : UsefulCqe → u.Q → Request → ℕ → ℕ → u.Q → World u
  after_arrival cqe q r from to q1 = record w {
    ring = q1;
    buffers = store from (filled from) w.buffers;
    holder_pool = (get w.holder_pool).1;
    stacks = (get w.stacks).1;
    requests = (get w.requests).1;
    freed = release (w.holders new) ++ w.freed;
    holders = store cqe.user_data (request fresh) (store new (handler (started cqe r)) w.holders);
  }

  loop_step-start :
      (cqe : UsefulCqe) (q q1 : u.Q) (r : Request) (from to : ℕ)
      → IsReceived cqe q r from to
      → recv_cookie u fd fresh.iov_len cqe.user_data false q ≡ some q1
      → loop_step u fd a w ≡ (
          start_handler u fd new (started cqe r) (after_arrival cqe q r from to q1) >>= λ w'.
          ok (retire u fd new w'))
  unfolding loop_step dispatch_cookie accept_request arrive
  loop_step-start cqe q q1 r from to k posted =
      rw (k.polled, loop_step)
        (rw (k.held, dispatch_cookie)
          (rw (k.base, dispatch_cookie)
            (rw (take_all r.iov_len a.payload k.fits, dispatch_cookie)
              (rw (posted, accept_request) refl))))

  -- What a handler leaves that waits for its send.
  abbrev served : Handler → World u → List ℕ → ℕ → u.Q → World u
  served h v p to ring = record v {
    ring = ring;
    requests = (get v.requests).1;
    buffers = store to (doubled p (v.buffers to)) v.buffers;
    holders = store new (handler h) v.holders;
  }

  -- A round in which a datagram has come in posts the next receive, with the length of the request
  -- that it is to go into, and then hands the kernel one send: the datagram's bytes twice over, to its
  -- sender, if they fit the buffer of the reply. The handler waits with the reply for the send, and the
  -- cookie of the receive points to the request that was posted.
  pub loop_step_replies :
      (cqe : UsefulCqe) (q q1 q2 : u.Q) (r : Request) (from to : ℕ)
      → IsReceived cqe q r from to
      → length a.payload * 2 ≤ length (w.buffers to)
      → recv_cookie u fd fresh.iov_len cqe.user_data false q ≡ some q1
      → send_cookie u fd (a.payload ++ a.payload) (addr_of a.from) new q1 ≡ some q2
      → (w' : World u) × (loop_step u fd a w ≡ ok w')
        × (w'.ring ≡ q2)
        × (w'.holders cqe.user_data ≡ request fresh)
        × (w'.holders new ≡ handler (waiting_handler new (get w.stacks).0 cqe r reply a))
        × (w'.requests ≡ (get (get w.requests).1).1)
  unfolding retire
  loop_step_replies cqe q q1 q2 r from to k room posted sent =
      let v = after_arrival cqe q r from to q1 in
      let p = a.payload in
      let seen : v.buffers from ≡ filled from = store_self from (filled from) w.buffers in
      let other : v.buffers to ≡ w.buffers to = store_ne from to (filled from) w.buffers k.apart in
      let long : length p ≤ length (w.buffers from) = omega (arith, k.fits, k.allocated) in
      let ran =
        start_handler-ok fd new (started cqe r) v p from to q2 k.size k.base k.reply_base
          (rw seen (omega (arith, long, length-overwrite p (w.buffers from))))
          (rw seen (take-overwrite p (w.buffers from) long)) (rw other room) sent in
      let v' = served (waiting_handler new (get w.stacks).0 cqe r reply a) v p to q2 in
      let mine : v'.holders new ≡ handler (waiting_handler new (get w.stacks).0 cqe r reply a) =
        store_self new (handler (waiting_handler new (get w.stacks).0 cqe r reply a)) v.holders in
      (
        v',
        rw (loop_step-start cqe q q1 r from to k posted) (rw ran (rw (mine, retire) refl)),
        refl,
        store_ne new cqe.user_data _ v.holders (λ e. k.unused (sym e))
            ∙ store_self cqe.user_data (request fresh) _,
        mine,
        refl,
      )

  -- If they do not fit, the copies go past the end of the reply's buffer.
  pub loop_step_overflows :
      (cqe : UsefulCqe) (q q1 : u.Q) (r : Request) (from to : ℕ)
      → IsReceived cqe q r from to
      → length (w.buffers to) < length a.payload * 2
      → recv_cookie u fd fresh.iov_len cqe.user_data false q ≡ some q1
      → loop_step u fd a w ≡ err out_of_bounds
  loop_step_overflows cqe q q1 r from to k long posted =
      let v = after_arrival cqe q r from to q1 in
      let other : v.buffers to ≡ w.buffers to = store_ne from to (filled from) w.buffers k.apart in
      rw (loop_step-start cqe q q1 r from to k posted) (
        rw
          (start_handler-err fd new (started cqe r) v a.payload from to k.size k.base k.reply_base
            (rw other long))
          refl)
