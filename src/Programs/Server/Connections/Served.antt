-- ===== src/Programs/Server/Connections/Served.antt =====
-- What a TCP connection is sent, and when it ends.
use hnet.Prelude.{
  ℕ, zero, suc, ◌<◌, ◌≤◌, ◌≡◌, ◌≢◌, refl, sym, subst, ap, ◌∙◌, true, false, List, [], ◌∷◌, ◌++◌,
  some, length, ◌==◌, Bool-cases, inl, inr, arith,
}
use hnet.Prelude.Int.{ℤ, pos, negsuc, ◌==ℤ◌, ◌≤ℤ◌}
use hnet.Prelude.Results.{ok}
use hnet.Prelude.Memory.{overwrite, length-overwrite}
use hnet.Ring2.Errors.{econnreset, enocqe}
use hnet.Ring2.Kernel.{UsefulCqe, IoUring}
use hnet.Ring2.Ring.{Ring}
use hnet.Ring2.Ring.Starvation.{IsFreeAfter, submitted}
use hnet.Ring2.Poller.Setters.{Store, update}
use hnet.Ring2.Poller.Quiet.{Quiet}
use hnet.Ring2.Submitter.Untimed.{waiting, done, ring_submit_lem}
use hnet.Ring2.Messages.{
  sender_of, ReadView, WriteView, Datagram, recv_sqe, recvmsg_into, sendmsg_view, read_view,
  view_of,
}
use hnet.Ring2.Messages.Receive.{recvmsg_into-ok, sendmsg_view-ok}
use hnet.Programs.Server.{Round, reply_text, buf_size}
use hnet.Programs.Server.Turns.{
  Turn, Answerer, round_seen, rounds_seen, recv_into, send_on, resumed_with, after_send, left_by,
  answered, settled, IsServed, AllServed, no_more, and_then,
}
use hnet.Programs.Server.Connections.{tcp_reply, tcp_round, tcp_serve}

-- A request, and the fixed reply to it.
abbrev pub fixed_reply : Datagram → WriteView
fixed_reply d = record { buf = reply_text; addr = sender_of d }

-- A request is not empty, and fits the buffer.
abbrev pub IsRequest : Datagram → Type 0
IsRequest d = (0 < length d.payload) × (length d.payload ≤ buf_size)

view_of-low : (x : ℤ) (bytes : List ℕ) → x ≤ℤ pos 0 → view_of x bytes ≡ []
unfolding view_of
view_of-low (pos zero) bytes low = refl
view_of-low (pos (suc n)) bytes low = absurd (omega arith)
view_of-low (negsuc n) bytes low = ground arith

module _ {u : IoUring} (yield : Ring u → Ring u) (fuel fiber at fd : ℕ) where
  abbrev pub tcp : Answerer u
  tcp = record {
    answer = fixed_reply;
    IsAccepted = IsRequest;
    yield = yield;
    fuel = fuel;
    fiber = fiber;
    at = at;
    socket = fd;
  }

  tcp_reply-sends :
      (departures : List UsefulCqe) (d : Datagram) (sent : ℕ) (buf : List ℕ) (r r' : Ring u)
      (h h' : Store)
      → 0 < length d.payload
      → sendmsg_view u yield fuel fiber departures at fd (fixed_reply d) r h
        ≡ some (ok (pos sent, r', h'))
      → tcp_reply u yield fuel fiber at fd departures
          (record { ret = pos (length d.payload); buf = d.payload; addr = sender_of d })
          buf
          r
          h
        ≡ some (ok (false, buf, r', h'))
  unfolding tcp_reply
  tcp_reply-sends departures d sent buf r r' h h' more sends =
      let some_bytes : (length d.payload == 0) ≡ false = ground arith in
      rw (some_bytes, tcp_reply) (rw (sends, tcp_reply) refl)

  tcp_reply-stops :
      (departures : List UsefulCqe) (req : ReadView) (buf : List ℕ) (r : Ring u) (h : Store)
      → req.buf ≡ []
      → tcp_reply u yield fuel fiber at fd departures req buf r h ≡ some (ok (true, buf, r, h))
  unfolding tcp_reply
  tcp_reply-stops departures req buf r h empty = elim (Bool-cases (req.ret ==ℤ econnreset)) [
    | inl reset ↦ rw (reset, tcp_reply) refl
    | inr other ↦ rw (other, tcp_reply) (rw (empty, tcp_reply) refl)
  ]

  tcp_round-IsServed :
      (t : Turn) (buf : List ℕ) (r : Ring u) (h : Store)
      → length buf ≡ buf_size
      → IsServed tcp t r h
      → (buf' : List ℕ) × (tcp_round u yield fuel fiber at fd (round_seen tcp t) buf r h
          ≡ some (ok (false, buf', after_send tcp t r, left_by tcp t)))
        × (length buf' ≡ buf_size)
  unfolding tcp_round tcp_reply
  tcp_round-IsServed t buf r h full (nf, mf, fits, free, quiet, free', quiet') =
      let d = t.datagram in
      let sends =
        sendmsg_view-ok yield t.full_before_send fuel fiber at fd t.out_before t.out_after
          (recv_into tcp (length buf) t r) (resumed_with tcp t) t.at_send mf
          (subst (λ k. IsFreeAfter yield t.full_before_send (recv_into tcp k t r)) (sym full) free')
          quiet' t.sent (fixed_reply d) in
      let departures = t.out_before ++ done at (pos t.sent) ∷ t.out_after in
      let filled = overwrite d.payload buf in
      (
        filled,
        rw
              (
                recvmsg_into-ok yield t.full_before_recv fuel fiber at fd t.in_before t.in_after r h
                    t.at_recv nf free quiet buf d (omega (arith, fits.1)),
                tcp_round,
              )
              (tcp_reply-sends departures d t.sent filled (recv_into tcp (length buf) t r)
                (send_on tcp t (recv_into tcp (length buf) t r)) (resumed_with tcp t)
                (left_by tcp t) fits.0 sends)
            ∙ ap
                (λ k. some (ok (false, filled, send_on tcp t (recv_into tcp k t r), left_by tcp t)))
                full,
        length-overwrite d.payload buf ∙ full,
      )

  -- The end of the connection, or an error: the kernel's result is not positive.
  tcp_round_closes :
      (n : ℕ) (before after departures : List UsefulCqe) (x : ℤ) (d : Datagram) (buf : List ℕ)
      (r : Ring u) (h h1 : Store)
      → length buf ≡ buf_size
      → x ≤ℤ pos 0
      → x ≢ enocqe
      → n < fuel
      → IsFreeAfter yield n r
      → Quiet fiber (λ a. a ≡ at) (update h at (waiting fiber)) before h1
      → tcp_round u yield fuel fiber at fd
          (record { arrivals = before ++ done at x ∷ after; datagram = d; departures = departures })
          buf
          r
          h
        ≡ some (
            ok (
              true,
              overwrite d.payload buf,
              (submitted yield n
                  (record (recv_sqe fd buf_size false) { user_data = at })
                  false
                  r).1,
              update h1 at (record (waiting fiber) { res = x }),
            ))
  unfolding tcp_round tcp_reply recvmsg_into read_view
  tcp_round_closes n before after departures x d buf r h h1 full low x_set nf free quiet =
      let ran =
        ring_submit_lem yield n fuel fiber at before after (recv_sqe fd (length buf) false) x r h h1
          x_set nf free quiet in
      let filled = overwrite d.payload buf in
      rw (ran, tcp_round)
        (tcp_reply-stops departures (read_view x filled (sender_of d)) filled _ _
          (view_of-low x filled low))
      ∙ ap
          (λ k. some (
            ok (
              true,
              filled,
              (submitted yield n (record (recv_sqe fd k false) { user_data = at }) false r).1,
              update h1 at (record (waiting fiber) { res = x }),
            )))
          full

  -- Over any number of rounds, in each of which the queue gets room for both calls, their completions
  -- come in among those of others and the request is not empty and fits the buffer, the loop hands the
  -- kernel one receive and one send of the fixed reply for each request, in their order. It ends with
  -- the next receive whose result is not positive, the end of the stream or any error, and does
  -- nothing about what comes later.
  pub tcp_serve_lem :
      (ts : List Turn) (n : ℕ) (before after departures : List UsefulCqe) (x : ℤ) (d : Datagram)
      (later : List Round) (buf : List ℕ) (r : Ring u) (h h1 : Store)
      → length buf ≡ buf_size
      → AllServed tcp ts r h
      → x ≤ℤ pos 0
      → x ≢ enocqe
      → n < fuel
      → IsFreeAfter yield n (answered tcp ts r)
      → Quiet fiber (λ a. a ≡ at) (update (settled tcp ts h) at (waiting fiber)) before h1
      → let last : Round = record {
        arrivals = before ++ done at x ∷ after;
        datagram = d;
        departures = departures;
      } in
        (buf' : List ℕ) × (tcp_serve u yield fuel fiber at fd
            (rounds_seen tcp ts ++ last ∷ later)
            buf
            r
            h
          ≡ some (
              ok (
                true,
                buf',
                (submitted yield n
                    (record (recv_sqe fd buf_size false) { user_data = at })
                    false
                    (answered tcp ts r)).1,
                update h1 at (record (waiting fiber) { res = x }),
              )))
  unfolding tcp_serve
  tcp_serve_lem [] n before after departures x d later buf r h h1 full no_more low x_set nf free
        quiet =
      let ran =
        tcp_round_closes n before after departures x d buf r h h1 full low x_set nf free quiet in
      (overwrite d.payload buf, rw (ran, tcp_serve) refl)
  tcp_serve_lem (t ∷ ts) n before after departures x d later buf r h h1 full (and_then served rest)
        low x_set nf free quiet =
      let (buf', ran, full') = tcp_round-IsServed t buf r h full served in
      let (buf'', ended) =
        tcp_serve_lem ts n before after departures x d later buf' (after_send tcp t r)
          (left_by tcp t) h1 full' rest low x_set nf free quiet in
      (buf'', rw (ran, tcp_serve) ended)
