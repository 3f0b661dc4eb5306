-- ===== src/Programs/Server/Echo.antt =====
-- What the UDP server sends.
use hnet.Prelude.{
  ℕ, ◌+◌, ◌*◌, ◌<◌, ◌≤◌, ◌≡◌, ap, ◌∙◌, List, ◌∷◌, ◌++◌, some, length, take, arith, false, lt→ltb,
  le→not-ltb,
}
use hnet.Prelude.Int.{pos}
use hnet.Prelude.Results.{ok, err}
use hnet.Prelude.Memory.{
  overwrite, write_at, take-overwrite, take-write_at, length-overwrite, length-write_at,
}
use hnet.Ring2.Errors.{too_long_message}
use hnet.Ring2.Kernel.{UsefulCqe, IoUring}
use hnet.Ring2.Ring.{Ring}
use hnet.Ring2.Ring.Starvation.{IsFreeAfter, submitted}
use hnet.Ring2.Poller.Setters.{Store, update}
use hnet.Ring2.Poller.Quiet.{Quiet}
use hnet.Ring2.Submitter.Untimed.{waiting, done}
use hnet.Ring2.Messages.{sender_of, ReadView, WriteView, Datagram, recv_sqe, send_sqe}
use hnet.Ring2.Messages.Receive.{recvmsg_into-ok, sendmsg_view-ok}
use hnet.Programs.Server.{Round, echo, udp_round, buf_size}

-- A datagram that lies in the buffer, and takes less than half of it, is answered to its sender by
-- its bytes twice over.
pub echo-ok :
    (msg : ReadView) (buf : List ℕ)
    → length buf ≡ buf_size
    → take (length msg.buf) buf ≡ msg.buf
    → length msg.buf * 2 < buf_size
    → echo msg buf
      ≡ ok (
        record { buf = msg.buf ++ msg.buf; addr = msg.addr },
        write_at (length msg.buf) msg.buf buf,
      )
unfolding echo
echo-ok msg buf full seen small =
    let n = length msg.buf in
    let doubled : n * 2 ≡ n + n = omega arith in
    let twice : take (n + n) (write_at n msg.buf buf) ≡ msg.buf ++ msg.buf =
      take-write_at n msg.buf buf (omega arith) ∙ ap (λ l. l ++ msg.buf) seen in
    rw (lt→ltb (n * 2) buf_size small, echo) (rw (seen, doubled, twice))

-- One that takes half of the buffer or more ends the server.
pub echo-err :
    (msg : ReadView) (buf : List ℕ)
    → buf_size ≤ length msg.buf * 2
    → echo msg buf ≡ err too_long_message
unfolding echo
echo-err msg buf long = rw (le→not-ltb (length msg.buf * 2) buf_size long)

module _ {u : IoUring} (yield : Ring u → Ring u) (n m fuel fiber at socket : ℕ)
    (in_before in_after out_before out_after : List UsefulCqe) (d : Datagram) (sent : ℕ)
    (buf : List ℕ) (r : Ring u) (h h1 h2 : Store) (nf : n < fuel) (mf : m < fuel)
    (full : length buf ≡ buf_size) (small : length d.payload * 2 < buf_size) where
  -- The round's events: the datagram comes in, and the reply goes out, among completions of others.
  abbrev pub events : Round
  events = record {
    arrivals = in_before ++ done at (pos (length d.payload)) ∷ in_after;
    datagram = d;
    departures = out_before ++ done at (pos sent) ∷ out_after;
  }

  abbrev pub received : Ring u
  received =
      (submitted yield n (record (recv_sqe socket (length buf) false) { user_data = at }) false r).1

  abbrev pub reply : WriteView
  reply = record { buf = d.payload ++ d.payload; addr = sender_of d }

  -- The store when the datagram is in.
  abbrev pub resumed : Store
  resumed = update h1 at (record (waiting fiber) { res = pos (length d.payload) })

  -- A round of the server ends, if the queue gets room for both of its calls, their completions come
  -- in and the datagram takes less than half of the buffer. It hands the kernel one receive and then one send, whose bytes are
  -- those of the datagram twice over and whose address is its sender; the buffer keeps its length.
  pub udp_round_lem :
      IsFreeAfter yield n r
      → Quiet fiber (λ a. a ≡ at) (update h at (waiting fiber)) in_before h1
      → IsFreeAfter yield m received
      → Quiet fiber (λ a. a ≡ at) (update resumed at (waiting fiber)) out_before h2
      → (buf' : List ℕ) × (udp_round u yield fuel fiber at socket events buf r h
          ≡ some (
              ok (
                buf',
                (submitted yield m
                    (record (send_sqe socket reply) { user_data = at })
                    false
                    received).1,
                update h2 at (record (waiting fiber) { res = pos sent }),
              )))
        × (length buf' ≡ buf_size)
  unfolding udp_round
  udp_round_lem free quiet free' quiet' =
      let msg : ReadView = record {
        ret = pos (length d.payload);
        buf = d.payload;
        addr = sender_of d;
      } in
      let filled = overwrite d.payload buf in
      let whole : length filled ≡ buf_size = length-overwrite d.payload buf ∙ full in
      (
        write_at (length d.payload) d.payload filled,
        rw
            (
              recvmsg_into-ok yield n fuel fiber at socket in_before in_after r h h1 nf free quiet
                  buf d (omega arith),
              udp_round,
            )
            (rw
              (
                echo-ok msg filled whole (take-overwrite d.payload buf (omega arith)) small,
                udp_round,
              )
              (rw (
                sendmsg_view-ok yield m fuel fiber at socket out_before out_after received resumed
                    h2 mf free' quiet' sent reply,
                udp_round,
              ))),
        length-write_at (length d.payload) d.payload filled ∙ whole,
      )
