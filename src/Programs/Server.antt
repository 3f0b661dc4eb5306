-- ===== src/Programs/Server.antt =====
-- src/srv2.cc: the UDP server sends each datagram back twice over, and the TCP server answers each
-- request with a fixed reply.
pub mod Accept
pub mod Echo
pub mod Requests
pub mod Turns
pub mod Connections
pub mod Rounds
pub mod Start
use hnet.Prelude.{
  ℕ, ◌+◌, ◌*◌, Bool, true, false, List, [], ◌∷◌, Option, none, some, length, take, ltb, ◌==◌,
  if◌then◌else◌,
}
use hnet.Prelude.Int.{ℤ, pos, ltb_ℤ, ◌==ℤ◌}
use hnet.Prelude.Results.{ok, err}
use hnet.Prelude.Memory.{write_at}
use hnet.Ring2.Errors.{Outcome, too_long_message, econnreset}
use hnet.Ring2.Kernel.{UsefulCqe, IoUring}
use hnet.Ring2.Ring.{Ring}
use hnet.Ring2.Poller.Setters.{Store}
use hnet.Ring2.Submitter.{Run, ◌>>=◌}
use hnet.Ring2.Messages.{ReadView, WriteView, Datagram, recvmsg_into, sendmsg_view}

-- `sizeof(buf)`.
abbrev pub buf_size : ℕ
buf_size = 65_000

-- The body of the loop between its two calls: the buffer after it, and what is sent.
unfoldable pub echo : ReadView → List ℕ → Outcome (WriteView × List ℕ)
echo msg buf =
    let size = length msg.buf in
    if ltb (size * 2) buf_size
    then (let buf' = write_at size (take size buf) buf in
        ok (record { buf = take (size * 2) buf'; addr = msg.addr }, buf'))
    else err too_long_message

-- What the poller and the network do in one round of the loop.
pub record Round : Type 0 where
  pub arrivals : List UsefulCqe
  pub datagram : Datagram
  pub departures : List UsefulCqe

module _ (u : IoUring) (yield : Ring u → Ring u) (fuel fiber at socket : ℕ) where
  -- One round: receive, echo, send.
  unfoldable pub udp_round : Round → List ℕ → Ring u → Store → Run (List ℕ × Ring u × Store)
  unfolding echo
  udp_round e buf r h = do
    (msg, buf', r', h') ← recvmsg_into u yield fuel fiber e.arrivals at socket buf e.datagram r h
    (ww, buf'') ← some (echo msg buf')
    (sent, r'', h'') ← sendmsg_view u yield fuel fiber e.departures at socket ww r' h'
    some (ok (buf'', r'', h''))

  -- The loop, over what happens in its rounds.
  unfoldable pub udp_loop : List Round → List ℕ → Ring u → Store → Run (List ℕ × Ring u × Store)
  udp_loop [] buf r h = some (ok (buf, r, h))
  udp_loop (e ∷ es) buf r h = do (buf', r', h') ← udp_round e buf r h; udp_loop es buf' r' h'

-- How a connection's loop stands: it waits for the next request, was left by a `break`, or threw.
pub data Connection : Type 0 where
  waiting closed : Connection
  threw : ℤ → Connection

-- `REPLY`: "HTTP/1.1 200 OK", "Content-Length: 9", an empty line and "ninebytes".
abbrev pub reply_text : List ℕ
reply_text =
    72 ∷ 84 ∷ 84 ∷ 80 ∷ 47 ∷ 49 ∷ 46 ∷ 49 ∷ 32 ∷ 50 ∷ 48 ∷ 48 ∷ 32 ∷ 79 ∷ 75 ∷ 13 ∷ 10 ∷ 67 ∷ 111
    ∷ 110 ∷ 116 ∷ 101 ∷ 110 ∷ 116 ∷ 45 ∷ 76 ∷ 101 ∷ 110 ∷ 103 ∷ 116 ∷ 104 ∷ 58 ∷ 32 ∷ 57 ∷ 13 ∷ 10
    ∷ 13 ∷ 10 ∷ 110 ∷ 105 ∷ 110 ∷ 101 ∷ 98 ∷ 121 ∷ 116 ∷ 101 ∷ 115 ∷ []

-- The TCP loop over what it receives, with the result of each send: the replies that were sent.
unfoldable pub tcp_loop : List (ReadView × ℤ) → List WriteView × Connection
tcp_loop [] = ([], waiting)
tcp_loop ((req, sent) ∷ rest) =
    let (ws, end) = tcp_loop rest in
    if req.ret ==ℤ econnreset
    then ([], closed)
    else (if length req.buf == 0
        then ([], closed)
        else (if ltb_ℤ sent (pos 0)
            then ([], threw sent)
            else (record { buf = reply_text; addr = req.addr } ∷ ws, end)))
