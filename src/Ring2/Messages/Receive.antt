-- ===== src/Ring2/Messages/Receive.antt =====
-- What the callers of `Submitter` get.
use hnet.Prelude.{
  ℕ, ◌<◌, ◌≤◌, ◌≡◌, ◌≢◌, ◌∙◌, List, [], ◌∷◌, ◌++◌, some, length, arith, false, if◌then◌else◌,
}
use hnet.Prelude.Int.{ℤ, pos, negsuc, ◌-ℤ◌, ltb_ℤ}
use hnet.Prelude.Results.{ok, err}
use hnet.Prelude.Memory.{overwrite, take-overwrite}
use hnet.Ring2.Errors.{enocqe, bad_sendmsg}
use hnet.Ring2.Kernel.{UsefulCqe, IoUring, Sqe}
use hnet.Ring2.Ring.{Ring}
use hnet.Ring2.Ring.Starvation.{IsFreeAfter, submitted}
use hnet.Ring2.Poller.Setters.{Store, update}
use hnet.Ring2.Poller.Quiet.{Quiet}
use hnet.Ring2.Submitter.Untimed.{waiting, done, ring_submit_lem}
use hnet.Ring2.Messages.{
  sender_of, WriteView, Datagram, recv_sqe, send_sqe, recvmsg_into, sendmsg_view,
}

-- A receive whose completion is `x`, with the setter of the fiber at `at`.
module _ {u : IoUring} (yield : Ring u → Ring u) (n fuel fiber at fd : ℕ)
    (before after : List UsefulCqe) (r : Ring u) (h h1 : Store) (nf : n < fuel)
    (free : IsFreeAfter yield n r)
    (quiet : Quiet fiber (λ a. a ≡ at) (update h at (waiting fiber)) before h1) where
  -- The ring after the submission of an entry.
  abbrev pub handed : Sqe → Ring u
  handed sqe = (submitted yield n (record sqe { user_data = at }) false r).1

  abbrev pub finished : ℤ → Store
  finished x = update h1 at (record (waiting fiber) { res = x })

  -- A datagram that fits the buffer, and whose completion has its length, is read whole, with its
  -- sender, and lies in the buffer.
  pub recvmsg_into-ok :
      (buf : List ℕ) (d : Datagram)
      → length d.payload ≤ length buf
      → recvmsg_into u yield fuel fiber
          (before ++ done at (pos (length d.payload)) ∷ after)
          at
          fd
          buf
          d
          r
          h
        ≡ some (
            ok (
              record { ret = pos (length d.payload); buf = d.payload; addr = sender_of d },
              overwrite d.payload buf,
              handed (recv_sqe fd (length buf) false),
              finished (pos (length d.payload)),
            ))
  unfolding recvmsg_into
  recvmsg_into-ok buf d fits =
      let x = pos (length d.payload) in
      rw
        (
          ring_submit_lem yield n fuel fiber at before after (recv_sqe fd (length buf) false) x r h
              h1 (λ e. ground arith) nf free quiet,
          recvmsg_into,
        )
        (rw (take-overwrite d.payload buf fits) (ground arith))

  -- A failed receive throws nothing: the view is empty, and has the error.
  pub recvmsg_into-err :
      (buf : List ℕ) (d : Datagram) (k : ℕ)
      → negsuc k ≢ enocqe
      → recvmsg_into u yield fuel fiber (before ++ done at (negsuc k) ∷ after) at fd buf d r h
        ≡ some (
            ok (
              record { ret = negsuc k; buf = []; addr = sender_of d },
              overwrite d.payload buf,
              handed (recv_sqe fd (length buf) false),
              finished (negsuc k),
            ))
  unfolding recvmsg_into
  recvmsg_into-err buf d k x_set =
      rw
        (
          ring_submit_lem yield n fuel fiber at before after (recv_sqe fd (length buf) false)
              (negsuc k) r h h1 x_set nf free quiet,
          recvmsg_into,
        )
        (ground arith)

  -- A send hands its bytes and its address to the kernel. It throws the error of a completion that
  -- failed, and returns the result of any other.
  pub sendmsg_view_lem :
      (x : ℤ) (ww : WriteView)
      → x ≢ enocqe
      → sendmsg_view u yield fuel fiber (before ++ done at x ∷ after) at fd ww r h
        ≡ some (
            if ltb_ℤ x (pos 0)
            then err (bad_sendmsg (pos 0 -ℤ x))
            else ok (x, handed (send_sqe fd ww), finished x))
  unfolding sendmsg_view
  sendmsg_view_lem x ww x_set =
      rw
        (
          ring_submit_lem yield n fuel fiber at before after (send_sqe fd ww) x r h h1 x_set nf free
              quiet,
          sendmsg_view,
        )
        (ground arith)

  pub sendmsg_view-ok :
      (k : ℕ) (ww : WriteView)
      → sendmsg_view u yield fuel fiber (before ++ done at (pos k) ∷ after) at fd ww r h
        ≡ some (ok (pos k, handed (send_sqe fd ww), finished (pos k)))
  sendmsg_view-ok k ww = sendmsg_view_lem (pos k) ww (λ e. ground arith) ∙ ground arith
