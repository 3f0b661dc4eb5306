-- ===== src/Netring/Uring/Callbacks.antt =====
-- netring/netring/uring.cc: requests that carry a context with the callback of their completion.
-- A context is its address; the pool is the deque of those that are free.
pub mod Balance
pub mod Delivery
use hnet.Prelude.{ℕ, zero, suc, List, [], ◌∷◌, ◌++◌, Option, none, some, ◌==◌, if◌then◌else◌}
use hnet.Prelude.Int.{ℤ, pos, ◌==ℤ◌}
use hnet.Prelude.Results.{Result, ok, err}
use hnet.Ring2.Addr.{Addr}
use hnet.Ring2.Kernel.{UsefulCqe, Op, sendmsg, recvmsg, IoUring}
use hnet.Netring.Uring.{put_cookie, submitted}

-- Why a call does not return: an exception, or undefined behaviour.
pub data CallbackFault : Type 0 where
  wait_failed bad_function_call : CallbackFault
  no_context no_entry : CallbackFault

-- `K` are the functions that a `CompleteCb` can hold.
pub record Contexts (u : IoUring) (K : Type 0) : Type 0 where
  pub ring : u.Q
  pub contexts_pool : List ℕ
  pub cb : ℕ → Option K

-- `io_uring_queue_init_params` and the loop that makes contexts at the addresses `made`.
unfoldable pub make_uring : {u : IoUring} {K : Type 0} → u.Q → List ℕ → Contexts u K
make_uring q made = record { ring = q; contexts_pool = made; cb = λ a. none }

abbrev pub assign : {K : Type 0} → (ℕ → Option K) → ℕ → Option K → ℕ → Option K
assign cb a k b = if a == b then k else cb b

module _ {u : IoUring} {K : Type 0} where
  -- `io_uring_submit`, whose result is dropped; `none` is the null entry of a full queue.
  abbrev pub submit_entry : Contexts u K → Option u.Q → Result CallbackFault (Contexts u K)
  submit_entry w none = err no_entry
  submit_entry w (some q) = ok (record w { ring = (u.submit q).1 })

  -- `sendmsg` and `recvmsg` with a callback, which differ in the operation alone.
  unfoldable pub request_cb : Op → K → Contexts u K → Result CallbackFault (Contexts u K)
  unfolding put_cookie
  request_cb o k w = elim w.contexts_pool [
    | [] ↦ err no_context
    | ctx ∷ rest ↦
        submit_entry (record w { contexts_pool = rest; cb = assign w.cb ctx (some k) })
          (put_cookie u o ctx w.ring)
  ]

  unfoldable pub sendmsg_cb :
      ℕ → List ℕ → Addr → K → Contexts u K → Result CallbackFault (Contexts u K)
  unfolding request_cb
  sendmsg_cb fd bytes to k w = request_cb (sendmsg fd bytes to) k w

  unfoldable pub recvmsg_cb : ℕ → ℕ → K → Contexts u K → Result CallbackFault (Contexts u K)
  unfolding request_cb
  recvmsg_cb fd iov_len k w = request_cb (recvmsg fd iov_len) k w

  -- What `poll` does once the callback has returned.
  abbrev pub recycle : ℕ → Result CallbackFault (Contexts u K) → Result CallbackFault (Contexts u K)
  recycle ctx (err x) = err x
  recycle ctx (ok w) = ok (record {
    ring = u.cqe_seen w.ring;
    contexts_pool = w.contexts_pool ++ ctx ∷ [];
    cb = assign w.cb ctx none;
  })

  -- `run` is the call of a function: it may start requests itself. An empty one throws.
  abbrev pub call :
      (K → UsefulCqe → Contexts u K → Result CallbackFault (Contexts u K))
      → Option K
      → UsefulCqe
      → Contexts u K
      → Result CallbackFault (Contexts u K)
  call run none cqe w = err bad_function_call
  call run (some k) cqe w = run k cqe w

  unfoldable pub poll_cb :
      (K → UsefulCqe → Contexts u K → Result CallbackFault (Contexts u K))
      → Contexts u K
      → Result CallbackFault (Contexts u K)
  poll_cb run w =
      let (ret, cqe, q) = u.wait_cqe w.ring in
      if ret ==ℤ pos 0
      then recycle cqe.user_data (call run (w.cb cqe.user_data) cqe (record w { ring = q }))
      else err wait_failed
