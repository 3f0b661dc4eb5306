-- ===== src/Programs/Server/Rounds.antt =====
-- The loop of a fiber of the UDP server, over many rounds.
use hnet.Prelude.{
  ℕ, ◌*◌, ◌<◌, ◌≤◌, ◌≡◌, refl, sym, subst, ap, ◌∙◌, List, [], ◌∷◌, ◌++◌, some, length, arith,
}
use hnet.Prelude.Int.{pos}
use hnet.Prelude.Results.{ok, err}
use hnet.Ring2.Errors.{too_long_message}
use hnet.Ring2.Kernel.{IoUring}
use hnet.Ring2.Ring.{Ring}
use hnet.Ring2.Ring.Starvation.{IsFreeAfter}
use hnet.Ring2.Poller.Setters.{Store, update}
use hnet.Ring2.Poller.Quiet.{Quiet}
use hnet.Ring2.Submitter.Untimed.{waiting}
use hnet.Ring2.Messages.{sender_of, ReadView, WriteView, Datagram}
use hnet.Ring2.Messages.Receive.{recvmsg_into-ok}
use hnet.Prelude.Memory.{overwrite}
use hnet.Programs.Server.{Round, udp_round, udp_loop, buf_size}
use hnet.Programs.Server.Turns.{
  Answerer, Turn, round_seen, rounds_seen, recv_into, send_on, after_send, left_by, answered,
  settled, IsServed, AllServed, no_more, and_then,
}
use hnet.Programs.Server.Echo.{echo-err, udp_round_lem}

-- The answer to a datagram: its bytes twice over, to its sender.
abbrev pub answer_to : Datagram → WriteView
answer_to d = record { buf = d.payload ++ d.payload; addr = sender_of d }

-- It takes less than half of the buffer.
abbrev pub IsShort : Datagram → Type 0
IsShort d = length d.payload * 2 < buf_size

module _ {u : IoUring} (yield : Ring u → Ring u) (fuel fiber at socket : ℕ) where
  abbrev pub udp : Answerer u
  udp = record {
    answer = answer_to;
    IsAccepted = IsShort;
    yield = yield;
    fuel = fuel;
    fiber = fiber;
    at = at;
    socket = socket;
  }

  pub udp_round-IsServed :
      (t : Turn) (buf : List ℕ) (r : Ring u) (h : Store)
      → length buf ≡ buf_size
      → IsServed udp t r h
      → (buf' : List ℕ) × (udp_round u yield fuel fiber at socket (round_seen udp t) buf r h
          ≡ some (ok (buf', after_send udp t r, left_by udp t)))
        × (length buf' ≡ buf_size)
  udp_round-IsServed t buf r h full (nf, mf, small, free, quiet, free', quiet') =
      let (buf', ran, full') =
        udp_round_lem yield t.full_before_recv t.full_before_send fuel fiber at socket t.in_before
          t.in_after t.out_before t.out_after t.datagram t.sent buf r h t.at_recv t.at_send nf mf
          full small free quiet
          (subst (λ k. IsFreeAfter yield t.full_before_send (recv_into udp k t r)) (sym full) free')
          quiet' in
      (
        buf',
        ran ∙ ap (λ k. some (ok (buf', send_on udp t (recv_into udp k t r), left_by udp t))) full,
        full',
      )

  -- Over any number of rounds, in each of which the queue gets room for both calls, their completions
  -- come in among those of others and the datagram takes less than half of the buffer, the loop hands
  -- the kernel one receive and one send for each datagram, in their order: the send has the bytes of
  -- the datagram twice over, and the address of its sender. The buffer keeps its length.
  pub udp_loop_lem :
      (ts : List Turn) (buf : List ℕ) (r : Ring u) (h : Store)
      → length buf ≡ buf_size
      → AllServed udp ts r h
      → (buf' : List ℕ) × (udp_loop u yield fuel fiber at socket (rounds_seen udp ts) buf r h
          ≡ some (ok (buf', answered udp ts r, settled udp ts h)))
        × (length buf' ≡ buf_size)
  unfolding udp_loop
  udp_loop_lem [] buf r h full no_more = (buf, refl, full)
  udp_loop_lem (t ∷ ts) buf r h full (and_then served rest) =
      let (buf', ran, full') = udp_round-IsServed t buf r h full served in
      let (buf'', ran', full'') =
        udp_loop_lem ts buf' (after_send udp t r) (left_by udp t) full' rest in
      (buf'', rw (ran, udp_loop) ran', full'')

  -- A round whose datagram takes half of the buffer or more ends with the message of the check.
  pub udp_round_dies :
      (t : Turn) (buf : List ℕ) (r : Ring u) (h : Store)
      → length buf ≡ buf_size
      → buf_size ≤ length t.datagram.payload * 2
      → length t.datagram.payload ≤ buf_size
      → t.full_before_recv < fuel
      → IsFreeAfter yield t.full_before_recv r
      → Quiet fiber (λ a. a ≡ at) (update h at (waiting fiber)) t.in_before t.at_recv
      → udp_round u yield fuel fiber at socket (round_seen udp t) buf r h
        ≡ some (err too_long_message)
  unfolding udp_round
  udp_round_dies t buf r h full long fits nf free quiet =
      let d = t.datagram in
      let msg : ReadView = record {
        ret = pos (length d.payload);
        buf = d.payload;
        addr = sender_of d;
      } in
      rw
        (
          recvmsg_into-ok yield t.full_before_recv fuel fiber at socket t.in_before t.in_after r h
              t.at_recv nf free quiet buf d (omega arith),
          udp_round,
        )
        (rw (echo-err msg (overwrite d.payload buf) long, udp_round) refl)

  -- After rounds as above, a datagram comes that takes half of the buffer or more, and fits it, with
  -- room in the queue for its receive. The loop serves the ones before it, and ends at that one with
  -- the message of the check, whatever comes later.
  pub udp_loop_dies :
      (ts : List Turn) (t : Turn) (later : List Round) (buf : List ℕ) (r : Ring u) (h : Store)
      → length buf ≡ buf_size
      → AllServed udp ts r h
      → buf_size ≤ length t.datagram.payload * 2
      → length t.datagram.payload ≤ buf_size
      → t.full_before_recv < fuel
      → IsFreeAfter yield t.full_before_recv (answered udp ts r)
      → Quiet fiber
          (λ a. a ≡ at)
          (update (settled udp ts h) at (waiting fiber))
          t.in_before
          t.at_recv
      → udp_loop u yield fuel fiber at socket
          (rounds_seen udp ts ++ round_seen udp t ∷ later)
          buf
          r
          h
        ≡ some (err too_long_message)
  unfolding udp_loop
  udp_loop_dies [] t later buf r h full no_more long fits nf free quiet =
      rw (udp_round_dies t buf r h full long fits nf free quiet, udp_loop) refl
  udp_loop_dies (t' ∷ ts) t later buf r h full (and_then served rest) long fits nf free quiet =
      let (buf', ran, full') = udp_round-IsServed t' buf r h full served in
      rw (ran, udp_loop)
        (udp_loop_dies ts t later buf' (after_send udp t' r) (left_by udp t') full' rest long fits
          nf free quiet)
