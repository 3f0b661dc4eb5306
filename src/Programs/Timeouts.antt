-- ===== src/Programs/Timeouts.antt =====
-- A request whose answer does not come: the client's receive with a timeout, from the ring to the
-- count of dead packets.
use hnet.Prelude.{
  inl, inr, dec_lt, ◌^◌, ◌≤◌, ℕ, true, suc, ◌<◌, ◌≡◌, ◌≢◌, ◌⊎◌, List, [], some, length, arith,
}
use hnet.Prelude.Int.{ℤ, pos, ◌≤ℤ◌, ◌<ℤ◌}
use hnet.Prelude.Results.{ok, err}
use hnet.Five.Time.{Instant, Duration}
use hnet.Ring2.Addr.{SockAddr, default_addr}
use hnet.Ring2.Errors.{overflow, ecanceled, etime, esqe_timeout}
use hnet.Ring2.Kernel.{UsefulCqe, IoUring}
use hnet.Ring2.Ring.{Ring}
use hnet.Ring2.Ring.Starvation.{IsFreeAfter}
use hnet.Ring2.Poller.Setters.{Store}
use hnet.Ring2.Submitter.{timed_result}
use hnet.Ring2.Submitter.Timed.{Arrivals, asleep, first, second, ring_submit_timed_lem}
use hnet.Ring2.Messages.{ReadView, recv_sqe, recvmsg_timed}
use hnet.Programs.Client.{Client, client_step}

-- What a receive returns that timed out.
abbrev pub timed_out : SockAddr → ReadView
timed_out from = record { ret = esqe_timeout; buf = []; addr = default_addr from }

module _ {u : IoUring} (yield : Ring u → Ring u) (n m fuel fiber op timeout fd : ℕ)
    (cqes : List UsefulCqe) (dur : Duration) (r : Ring u) (h : Store) (buf : List ℕ) where
  -- When the timer fires and cancels the receive, the call returns the code of a timeout with an empty
  -- view and leaves the buffer as it was, and the client counts a dead packet, records no time and
  -- starts anew, unless the count passes the range of an `int`.
  pub client_step-recvmsg_timed :
      (from : SockAddr) (expected : List ℕ) (c : Client) (send_res : ℤ) (now : Instant)
      → op ≢ timeout
      → n < fuel
      → m < fuel
      → pos 0 <ℤ send_res
      → IsFreeAfter yield n r
      → IsFreeAfter yield m (first yield n m (recv_sqe fd (length buf) true) op timeout dur r).1
      → ((second yield n m (recv_sqe fd (length buf) true) op timeout dur r).0 ≡ pos 0)
        ⊎ (pos 2 ≤ℤ (second yield n m (recv_sqe fd (length buf) true) op timeout dur r).0)
      → Arrivals fiber op timeout ecanceled etime (asleep fiber op timeout h) cqes
      → (h' : Store) × (recvmsg_timed u yield fuel fiber cqes op timeout fd buf dur
            (record { payload = []; from = from })
            r
            h
          ≡ some (
              ok (
                timed_out from,
                buf,
                (second yield n m (recv_sqe fd (length buf) true) op timeout dur r).1,
                h',
              )))
        × (((suc c.dead_packets < 2 ^ 31)
              × (client_step expected c
                    (record { send_res = send_res; result = timed_out from; now = now })
                  ≡ ok (record c { start = now; dead_packets = suc c.dead_packets })))
            ⊎ ((2 ^ 31 ≤ suc c.dead_packets)
                × (client_step expected c
                      (record { send_res = send_res; result = timed_out from; now = now })
                    ≡ err overflow)))
  unfolding recvmsg_timed timed_result client_step
  client_step-recvmsg_timed from expected c send_res now apart nf mf sent free free' handed
        arrivals =
      let (h', called) =
        ring_submit_timed_lem yield n m fuel fiber op timeout cqes (recv_sqe fd (length buf) true)
          dur ecanceled etime r h apart (λ e. ground arith) (λ e. ground arith) nf mf free free'
          handed arrivals in
      (
        h',
        rw (called, recvmsg_timed) (ground arith),
        elim (dec_lt (suc c.dead_packets) (2 ^ 31)) [
          | yes fits ↦ inl (fits, ground (arith, fits))
          | no wide ↦ inr (omega (arith, wide), ground (arith, wide))
        ],
      )
