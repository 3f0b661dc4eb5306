-- ===== src/Netring/Uring.antt =====
-- netring/netring/uring.cc: requests that carry a cookie, the address of the caller's own object, and
-- the wait for a completion, which polls before it asks the kernel to wait.
pub mod Cookies
pub mod Tracked
pub mod Callbacks
use hnet.Prelude.{List, ℕ, zero, suc, Bool, true, false, Option, none, some, if◌then◌else◌}
use hnet.Prelude.Int.{ℤ, pos, ◌==ℤ◌}
use hnet.Prelude.Results.{ok, err}
use hnet.Ring2.Errors.{Outcome, wait_cqe_failed}
use hnet.Ring2.Kernel.{UsefulCqe, Op, sendmsg, recvmsg, Sqe, IoUring}
use hnet.Ring2.Addr.{Addr}

abbrev pub cookie_sqe : Op → ℕ → Sqe
cookie_sqe o cookie = record {
  op = o;
  user_data = cookie;
  io_link = false;
  async = false;
  poll_first = false;
}

-- The bound of the loop of `poll_cookie`.
abbrev pub peek_attempts : ℕ
peek_attempts = 150_000_000

module _ (u : IoUring) where
  -- `none` is a full queue, whose null entry is written to: undefined behaviour.
  unfoldable pub put_cookie : Op → ℕ → u.Q → Option u.Q
  put_cookie o cookie q =
      let (found, q') = u.get_sqe q in
      if found then some (u.put_sqe (cookie_sqe o cookie) q') else none

  abbrev pub submitted : Option u.Q → Option u.Q
  submitted none = none
  submitted (some q) = some (u.submit q).1

  unfoldable pub send_cookie : ℕ → List ℕ → Addr → ℕ → u.Q → Option u.Q
  unfolding put_cookie
  send_cookie fd bytes to cookie q = submitted (put_cookie (sendmsg fd bytes to) cookie q)

  unfoldable pub recv_cookie : ℕ → ℕ → ℕ → Bool → u.Q → Option u.Q
  unfolding put_cookie
  recv_cookie fd iov_len cookie nosubmit q =
      let put = put_cookie (recvmsg fd iov_len) cookie q in if nosubmit then put else submitted put

  -- The loop, with the attempts that are left: the entry, if an attempt found one.
  unfoldable pub peek_loop : ℕ → u.Q → Option UsefulCqe × u.Q
  peek_loop zero q = (none, q)
  peek_loop (suc left) q =
      let (ret, cqe, q') = u.peek_cqe q in
      let rest = peek_loop left q' in if ret ==ℤ pos 0 then (some cqe, q') else rest

  -- What `poll_cookie` does after its loop.
  unfoldable pub finish_poll : Option UsefulCqe → u.Q → Outcome (UsefulCqe × u.Q)
  finish_poll (some cqe) q = ok (cqe, u.cqe_seen q)
  finish_poll none q =
      let (ret, cqe, q') = u.wait_cqe q in
      if ret ==ℤ pos 0 then ok (cqe, u.cqe_seen q') else err wait_cqe_failed

  unfoldable pub poll_for : ℕ → u.Q → Outcome (UsefulCqe × u.Q)
  unfolding peek_loop finish_poll
  poll_for attempts q = let (found, q') = peek_loop attempts q in finish_poll found q'

  unfoldable pub poll_cookie : u.Q → Outcome (UsefulCqe × u.Q)
  poll_cookie q = poll_for peek_attempts q
