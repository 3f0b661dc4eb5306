-- ===== src/Ring2/Errors.antt =====
-- What the ring2 layer and the programs over it throw. Numbers are the `errno` values of Linux.
use hnet.Prelude.Int.{ℤ, neg_ℕ}
use hnet.Prelude.Results.{Result}

pub data Error : Type 0 where
  -- a failed SYSCALL_VERIFY
  peek_cqe_failed wait_cqe_failed : Error
  -- a completion whose user data points to no live `UringResSetter`: undefined behaviour
  dangling_setter : Error
  -- WHEELS_PANIC and WHEELS_VERIFY
  enocqe_panic not_inprogress : Error
  -- RES_VERIFY of `ring_submit`
  bad_submit bad_link_timeout : ℤ → Error
  -- `ThrowError` of the ring's constructor
  bad_init : ℤ → Error
  -- `ThrowError` of `Submitter`
  bad_sendmsg bad_accept : ℤ → Error
  -- WHEELS_VERIFY of src/srv2.cc, and what a fiber of src/infallible_udp.cc throws
  too_long_message bad_response : Error
  client_bad_sendmsg client_bad_recvmsg : ℤ → Error
  -- a signed overflow: undefined behaviour
  overflow : Error

abbrev pub Outcome : Type 0 → Type 0
Outcome A = Result Error A

abbrev pub eagain : ℤ
eagain = neg_ℕ 11

abbrev pub einprogress : ℤ
einprogress = neg_ℕ 115

abbrev pub enoent : ℤ
enoent = neg_ℕ 2

abbrev pub etime : ℤ
etime = neg_ℕ 62

abbrev pub ecanceled : ℤ
ecanceled = neg_ℕ 125

-- `ENOCQE` and `ESQE_TIMEOUT` of ring2/ring2/submitter.h, negated as they are used.
abbrev pub enocqe : ℤ
enocqe = neg_ℕ 100512

abbrev pub esqe_timeout : ℤ
esqe_timeout = neg_ℕ 100513

abbrev pub eintr : ℤ
eintr = neg_ℕ 4

abbrev pub econnreset : ℤ
econnreset = neg_ℕ 104
