-- ===== src/Programs/Server/Connections.antt =====
-- The loop of a TCP connection in src/srv2.cc, with its calls.
pub mod Served
use hnet.Prelude.{ℕ, Bool, true, false, List, [], ◌∷◌, some, length, ◌==◌, if◌then◌else◌}
use hnet.Prelude.Int.{ℤ, ◌==ℤ◌}
use hnet.Prelude.Results.{ok}
use hnet.Ring2.Errors.{econnreset}
use hnet.Ring2.Kernel.{UsefulCqe, IoUring}
use hnet.Ring2.Ring.{Ring}
use hnet.Ring2.Poller.Setters.{Store}
use hnet.Ring2.Submitter.{Run, ◌>>=◌}
use hnet.Ring2.Messages.{ReadView, WriteView, recvmsg_into, sendmsg_view}
use hnet.Programs.Server.{Round, reply_text}

abbrev pub reply_to : ReadView → WriteView
reply_to req = record { buf = reply_text; addr = req.addr }

module _ (u : IoUring) (yield : Ring u → Ring u) (fuel fiber at fd : ℕ) where
  -- What a round does with a request: `true` is a `break`.
  unfoldable pub tcp_reply :
      List UsefulCqe → ReadView → List ℕ → Ring u → Store → Run (Bool × List ℕ × Ring u × Store)
  tcp_reply departures req buf r h =
      if req.ret ==ℤ econnreset
      then some (ok (true, buf, r, h))
      else (if length req.buf == 0 then some (ok (true, buf, r, h)) else (do
        (sent, r', h') ← sendmsg_view u yield fuel fiber departures at fd (reply_to req) r h
        some (ok (false, buf, r', h'))))

  unfoldable pub tcp_round : Round → List ℕ → Ring u → Store → Run (Bool × List ℕ × Ring u × Store)
  unfolding tcp_reply
  tcp_round e buf r h = do
    (req, buf', r', h') ← recvmsg_into u yield fuel fiber e.arrivals at fd buf e.datagram r h
    tcp_reply e.departures req buf' r' h'

  -- The loop, over what happens in its rounds, and whether it has ended.
  unfoldable pub tcp_serve :
      List Round → List ℕ → Ring u → Store → Run (Bool × List ℕ × Ring u × Store)
  unfolding tcp_round
  tcp_serve [] buf r h = some (ok (false, buf, r, h))
  tcp_serve (e ∷ es) buf r h = do
    (over, buf', r', h') ← tcp_round e buf r h
    elim over [ true ↦ some (ok (true, buf', r', h')) | false ↦ tcp_serve es buf' r' h' ]
