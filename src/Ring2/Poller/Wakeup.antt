-- ===== src/Ring2/Poller/Wakeup.antt =====
-- A fiber that waits for a linked timeout is woken once, when both completions are in.
use hnet.Prelude.{ℕ, ◌≡◌, none, some, arith, ◌≢◌}
use hnet.Prelude.Int.{ℤ, ==ℤ→eq}
use hnet.Prelude.Results.{ok}
use hnet.Ring2.Errors.{enocqe}
use hnet.Ring2.Kernel.{UsefulCqe}
use hnet.Ring2.Poller.Setters.{UringResSetter, Store, update, update_self, update_ne, dispatch}

-- A setter of an operation with a timeout that has no result yet.
abbrev pub unset : ℕ → ℕ → ℕ → UringResSetter
unset fiber op timeout = record { fiber = fiber; res = enocqe; should_wake = some (op, timeout) }

abbrev pub with_res : UringResSetter → ℤ → UringResSetter
with_res s x = record s { res = x }

module _ (fiber op timeout : ℕ) (apart : op ≢ timeout) (x y : ℤ) (x_set : x ≢ enocqe)
    (y_set : y ≢ enocqe) where
  abbrev pub op_done : UsefulCqe
  op_done = record { user_data = op; res = x }

  abbrev pub timeout_done : UsefulCqe
  timeout_done = record { user_data = timeout; res = y }

  abbrev pub set_op : UringResSetter
  set_op = with_res (unset fiber op timeout) x

  abbrev pub set_timeout : UringResSetter
  set_timeout = with_res (unset fiber op timeout) y

  pub dispatch_op_first :
      (h : Store)
      → h op ≡ some (unset fiber op timeout)
      → h timeout ≡ some (unset fiber op timeout)
      → dispatch op_done h ≡ ok (none, update h op set_op)
  unfolding dispatch
  dispatch_op_first h at_op at_timeout =
      ground (arith, update_self h op set_op, update_ne h op timeout set_op, ==ℤ→eq x enocqe)

  pub dispatch_timeout_first :
      (h : Store)
      → h op ≡ some (unset fiber op timeout)
      → h timeout ≡ some (unset fiber op timeout)
      → dispatch timeout_done h ≡ ok (none, update h timeout set_timeout)
  unfolding dispatch
  dispatch_timeout_first h at_op at_timeout =
      ground (arith, update_self h timeout set_timeout, update_ne h timeout op set_timeout)

  pub dispatch_timeout_second :
      (h : Store)
      → h op ≡ some set_op
      → h timeout ≡ some (unset fiber op timeout)
      → dispatch timeout_done h ≡ ok (some fiber, update h timeout set_timeout)
  unfolding dispatch
  dispatch_timeout_second h at_op at_timeout = ground (
    arith,
    update_self h timeout set_timeout,
    update_ne h timeout op set_timeout,
    ==ℤ→eq x enocqe,
    ==ℤ→eq y enocqe,
  )

  pub dispatch_op_second :
      (h : Store)
      → h op ≡ some (unset fiber op timeout)
      → h timeout ≡ some set_timeout
      → dispatch op_done h ≡ ok (some fiber, update h op set_op)
  unfolding dispatch
  dispatch_op_second h at_op at_timeout = ground (
    arith,
    update_self h op set_op,
    update_ne h op timeout set_op,
    ==ℤ→eq x enocqe,
    ==ℤ→eq y enocqe,
  )
