-- ===== src/Netring/Uring/Tracked.antt =====
-- Which cookies the kernel still has. That each entry has one completion, with its user data, is
-- what the manual of liburing says.
use hnet.Prelude.{
  is, ℕ, zero, suc, ◌+◌, ◌≡◌, refl, ◌∙◌, Bool-cases, Option-cases, List, false, Option, none, some,
  inl, inr, arith,
}
use hnet.Prelude.Int.{pos, ◌==ℤ◌, ==ℤ→eq}
use hnet.Prelude.Results.{ok}
use hnet.Ring2.Addr.{Addr}
use hnet.Ring2.Kernel.{UsefulCqe, Op, recvmsg, sendmsg, Sqe, IoUring}
use hnet.Netring.Uring.{
  submitted, cookie_sqe, put_cookie, send_cookie, recv_cookie, peek_attempts, peek_loop,
  finish_poll, poll_for, poll_cookie,
}

-- Each entry that is put in has one completion, with its user data. `open_for q b` counts the entries
-- with the user data `b` whose completions were not consumed.
pub record IsTracked (u : IoUring) : Type 0 where
  pub open_for : u.Q → ℕ → ℕ
  pub at_get_sqe : (q : u.Q) (b : ℕ) → open_for (u.get_sqe q).1 b ≡ open_for q b
  pub at_put_sqe :
      (e : Sqe) (q : u.Q) (b : ℕ) → open_for (u.put_sqe e q) b ≡ open_for q b + is b e.user_data
  pub at_submit : (q : u.Q) (b : ℕ) → open_for (u.submit q).1 b ≡ open_for q b
  pub at_peek_cqe : (q : u.Q) (b : ℕ) → open_for (u.peek_cqe q).2 b ≡ open_for q b
  pub seen_peeked :
      (q : u.Q) (b : ℕ)
      → (u.peek_cqe q).0 ≡ pos 0
      → open_for (u.cqe_seen (u.peek_cqe q).2) b + is b (u.peek_cqe q).1.user_data
        ≡ open_for (u.peek_cqe q).2 b
  pub at_wait_cqe : (q : u.Q) (b : ℕ) → open_for (u.wait_cqe q).2 b ≡ open_for q b
  pub seen_waited :
      (q : u.Q) (b : ℕ)
      → (u.wait_cqe q).0 ≡ pos 0
      → open_for (u.cqe_seen (u.wait_cqe q).2) b + is b (u.wait_cqe q).1.user_data
        ≡ open_for (u.wait_cqe q).2 b

module _ {u : IoUring} (k : IsTracked u) where
  put_cookie-open :
      (o : Op) (cookie : ℕ) (q q' : u.Q) (b : ℕ)
      → put_cookie u o cookie q ≡ some q'
      → k.open_for (u.submit q').1 b ≡ k.open_for q b + is b cookie
  unfolding put_cookie
  put_cookie-open o cookie q q' b e =
      let sqe : Sqe = cookie_sqe o cookie in
      let put = u.put_sqe sqe (u.get_sqe q).1 in
      elim (Bool-cases (u.get_sqe q).0) [
        | inr full ↦ ground (arith, full, e)
        | inl free ↦
            let same : q' ≡ put = ground (arith, free, e) in
            rw same (
              omega
                (arith, k.at_submit put b, k.at_put_sqe sqe (u.get_sqe q).1 b, k.at_get_sqe q b))
      ]

  submitted-open :
      (o : Op) (cookie : ℕ) (q q' : u.Q) (b : ℕ)
      → submitted u (put_cookie u o cookie q) ≡ some q'
      → k.open_for q' b ≡ k.open_for q b + is b cookie
  submitted-open o cookie q q' b e = elim (Option-cases (put_cookie u o cookie q)) [
    | inl full ↦ ground (arith, full, e)
    | inr (put, filled) ↦
        let same : (u.submit put).1 ≡ q' = ground (arith, filled, e) in
        rw (← same) (put_cookie-open o cookie q put b filled)
  ]

  pub recv_cookie-open :
      (fd iov_len cookie : ℕ) (q q' : u.Q) (b : ℕ)
      → recv_cookie u fd iov_len cookie false q ≡ some q'
      → k.open_for q' b ≡ k.open_for q b + is b cookie
  unfolding recv_cookie
  recv_cookie-open fd iov_len cookie q q' b e = submitted-open (recvmsg fd iov_len) cookie q q' b e

  pub send_cookie-open :
      (fd : ℕ) (bytes : List ℕ) (to : Addr) (cookie : ℕ) (q q' : u.Q) (b : ℕ)
      → send_cookie u fd bytes to cookie q ≡ some q'
      → k.open_for q' b ≡ k.open_for q b + is b cookie
  unfolding send_cookie
  send_cookie-open fd bytes to cookie q q' b e =
      submitted-open (sendmsg fd bytes to) cookie q q' b e

  peek_loop-open :
      (left : ℕ) (q : u.Q) (b : ℕ) → k.open_for (peek_loop u left q).1 b ≡ k.open_for q b
  unfolding peek_loop
  peek_loop-open zero q b = refl
  peek_loop-open (suc left) q b =
      ground (arith, k.at_peek_cqe q b, peek_loop-open left (u.peek_cqe q).2 b)

  peek_loop-seen :
      (left : ℕ) (q : u.Q) (c : UsefulCqe) (b : ℕ)
      → (peek_loop u left q).0 ≡ some c
      → k.open_for (u.cqe_seen (peek_loop u left q).1) b + is b c.user_data
        ≡ k.open_for (peek_loop u left q).1 b
  unfolding peek_loop
  peek_loop-seen zero q c b e = cc
  peek_loop-seen (suc left) q c b e = elim (Bool-cases ((u.peek_cqe q).0 ==ℤ pos 0)) [
    | inl found ↦
        ground (arith, found, e, k.seen_peeked q b (==ℤ→eq (u.peek_cqe q).0 (pos 0) found))
    | inr empty ↦ ground (arith, empty, e, peek_loop-seen left (u.peek_cqe q).2 c b)
  ]

  finish_poll-open :
      (found : Option UsefulCqe) (q q' : u.Q) (c : UsefulCqe) (b : ℕ)
      → ((d : UsefulCqe)
          → found ≡ some d
          → k.open_for (u.cqe_seen q) b + is b d.user_data ≡ k.open_for q b)
      → finish_poll u found q ≡ ok (c, q')
      → k.open_for q' b + is b c.user_data ≡ k.open_for q b
  unfolding finish_poll
  finish_poll-open (some d) q q' c b there e = ground (arith, there d refl)
  finish_poll-open none q q' c b there e =
      ground (arith, ==ℤ→eq (u.wait_cqe q).0 (pos 0), k.at_wait_cqe q b, k.seen_waited q b)

  poll_for-open :
      (attempts : ℕ) (q q' : u.Q) (c : UsefulCqe) (b : ℕ)
      → poll_for u attempts q ≡ ok (c, q')
      → k.open_for q' b + is b c.user_data ≡ k.open_for q b
  unfolding poll_for finish_poll
  poll_for-open attempts q q' c b e =
      let found = (peek_loop u attempts q).0 in
      let q1 = (peek_loop u attempts q).1 in
      finish_poll-open found q1 q' c b (λ d h. peek_loop-seen attempts q d b h) e
      ∙ peek_loop-open attempts q b

  -- A completion that `poll_cookie` returns has the cookie of an entry that was open, and is taken
  -- from those.
  pub poll_cookie-open :
      (q q' : u.Q) (c : UsefulCqe) (b : ℕ)
      → poll_cookie u q ≡ ok (c, q')
      → k.open_for q' b + is b c.user_data ≡ k.open_for q b
  unfolding poll_cookie
  poll_cookie-open q q' c b e = poll_for-open peek_attempts q q' c b e
