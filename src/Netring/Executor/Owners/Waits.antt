-- ===== src/Netring/Executor/Owners/Waits.antt =====
-- What a handler leaves when it waits for its send, and how it can fail.
use hnet.Prelude.{
  ℕ, ◌*◌, ◌+◌, ◌≡◌, refl, List, Option, none, some, take, leb, ◌&&◌, length, Bool-cases, inl, inr,
}
use hnet.Prelude.Int.{ℤ, pos, leb_ℤ}
use hnet.Prelude.Results.{Ends, Ends-bind}
use hnet.Five.ObjectPool.{get}
use hnet.Ring2.Kernel.{IoUring}
use hnet.Netring.Uring.{send_cookie}
use hnet.Netring.Request.{Request}
use hnet.Netring.Executor.{
  Fault, wait_failed, unreachable, null_sqe, out_of_bounds, negative_size, no_reply, undefined,
  Handler, handler, World, store, size_of, memcpy, need, addr_of, start_handler,
}

-- The faults other than the panic of the loop and the end of a handler that has no open send.
abbrev pub IsExpected : Fault → Type 0
IsExpected wait_failed = Unit {0}
IsExpected unreachable = ⊥
IsExpected null_sqe = Unit {0}
IsExpected out_of_bounds = Unit {0}
IsExpected negative_size = Unit {0}
IsExpected no_reply = ⊥
IsExpected undefined = Unit {0}

pub need-IsExpected :
    {A : Type 0} (e : Fault) (o : Option A)
    → IsExpected e
    → Ends (λ a. o ≡ some a) IsExpected (need e o)
need-IsExpected e none h = h
need-IsExpected e (some a) h = refl

memcpy-IsExpected :
    (at n : ℕ) (src dst : List ℕ) → Ends (λ l. Unit {0}) IsExpected (memcpy at n src dst)
unfolding memcpy
memcpy-IsExpected at n src dst =
    elim (Bool-cases (leb n (length src) && leb (at + n) (length dst))) [
      | inl fits ↦ rw (fits, memcpy) tt
      | inr long ↦ rw (long, memcpy) tt
    ]

size_of-IsExpected : (res : ℤ) → Ends (λ n. Unit {0}) IsExpected (size_of res)
size_of-IsExpected res = elim (Bool-cases (leb_ℤ (pos 0) res)) [
  | inl size ↦ rw size tt
  | inr negative ↦ rw negative tt
]

module _ {u : IoUring} (fd : ℕ) where
  abbrev pub left_waiting : ℕ → Handler → World u → Request → u.Q → ℕ → List ℕ → World u
  left_waiting at h w sent ring to second = record w {
    ring = ring;
    requests = (get w.requests).1;
    buffers = store to second w.buffers;
    holders = store at (handler (record h { reply = some sent })) w.holders;
  }

  pub start_handler-waits :
      (P : World u → Type 0) (at : ℕ) (h : Handler) (w : World u)
      → ((sent : Request) (ring : u.Q) (to : ℕ) (second bytes : List ℕ)
          → sent.iov_base ≡ (get w.requests).0.iov_base
          → send_cookie u fd bytes (addr_of h.request.addr) h.cookie w.ring ≡ some ring
          → P (left_waiting at h w sent ring to second))
      → Ends P IsExpected (start_handler u fd at h w)
  unfolding start_handler
  start_handler-waits P at h w k =
      Ends-bind (λ a. Unit {0}) P IsExpected (size_of h.last_cqe.res) _
        (size_of-IsExpected h.last_cqe.res)
        (λ size x.
          Ends-bind (λ b. h.request.iov_base ≡ some b) P IsExpected
            (need out_of_bounds h.request.iov_base) _
            (need-IsExpected out_of_bounds h.request.iov_base tt)
            (λ source x.
              Ends-bind (λ b. (get w.requests).0.iov_base ≡ some b) P IsExpected
                (need out_of_bounds (get w.requests).0.iov_base) _
                (need-IsExpected out_of_bounds (get w.requests).0.iov_base tt)
                (λ to x.
                  Ends-bind (λ l. Unit {0}) P IsExpected
                    (memcpy 0 size (w.buffers source) (w.buffers to)) _
                    (memcpy-IsExpected 0 size (w.buffers source) (w.buffers to))
                    (λ first x.
                      Ends-bind (λ l. Unit {0}) P IsExpected
                        (memcpy size size (w.buffers source) first) _
                        (memcpy-IsExpected size size (w.buffers source) first)
                        (λ second x.
                          let out =
                            send_cookie u fd (take (size * 2) second) (addr_of h.request.addr)
                              h.cookie w.ring in
                          Ends-bind (λ q. out ≡ some q) P IsExpected (need null_sqe out) _
                            (need-IsExpected null_sqe out tt)
                            (λ ring sends.
                              k
                                (record (get w.requests).0 {
                                  iov_len = size * 2;
                                  addr = h.request.addr;
                                })
                                ring to second (take (size * 2) second) refl sends))))))
