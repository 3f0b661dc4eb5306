-- ===== src/Programs/Server/Turns.antt =====
-- The rounds of a server's loop that receives and answers, as they look from outside.
use hnet.Prelude.{ℕ, ◌<◌, ◌≡◌, List, [], ◌∷◌, ◌++◌, length, false}
use hnet.Prelude.Int.{pos}
use hnet.Ring2.Kernel.{UsefulCqe, IoUring}
use hnet.Ring2.Ring.{Ring}
use hnet.Ring2.Ring.Starvation.{IsFreeAfter, submitted}
use hnet.Ring2.Poller.Setters.{Store, update}
use hnet.Ring2.Poller.Quiet.{Quiet}
use hnet.Ring2.Submitter.Untimed.{waiting, done}
use hnet.Ring2.Messages.{WriteView, Datagram, recv_sqe, send_sqe}
use hnet.Programs.Server.{Round, buf_size}

-- A round seen from outside: how often the queue was full before the receive and before the send,
-- the completions around the two of the round, the datagram, the number of bytes sent, and the
-- setters when each of the two completions comes.
pub record Turn : Type 0 where
  pub full_before_recv : ℕ
  pub full_before_send : ℕ
  pub in_before : List UsefulCqe
  pub in_after : List UsefulCqe
  pub out_before : List UsefulCqe
  pub out_after : List UsefulCqe
  pub datagram : Datagram
  pub sent : ℕ
  pub at_recv : Store
  pub at_send : Store

-- A fiber of a server: what it answers, and where it runs. `at` is the address of its setter.
pub record Answerer (u : IoUring) : Type 1 where
  pub answer : Datagram → WriteView
  pub IsAccepted : Datagram → Type 0
  pub yield : Ring u → Ring u
  pub fuel : ℕ
  pub fiber : ℕ
  pub at : ℕ
  pub socket : ℕ

module _ {u : IoUring} (c : Answerer u) where
  abbrev pub round_seen : Turn → Round
  round_seen t = record {
    arrivals = t.in_before ++ done c.at (pos (length t.datagram.payload)) ∷ t.in_after;
    datagram = t.datagram;
    departures = t.out_before ++ done c.at (pos t.sent) ∷ t.out_after;
  }

  abbrev pub rounds_seen : List Turn → List Round
  rounds_seen [] = []
  rounds_seen (t ∷ ts) = round_seen t ∷ rounds_seen ts

  -- The ring after the receive of a turn, and after its send.
  abbrev pub recv_into : ℕ → Turn → Ring u → Ring u
  recv_into size t r =
      (submitted c.yield t.full_before_recv
        (record (recv_sqe c.socket size false) { user_data = c.at }) false r).1

  abbrev pub send_on : Turn → Ring u → Ring u
  send_on t r =
      (submitted c.yield t.full_before_send
        (record (send_sqe c.socket (c.answer t.datagram)) { user_data = c.at }) false r).1

  abbrev pub after_recv : Turn → Ring u → Ring u
  after_recv t r = recv_into buf_size t r

  abbrev pub after_send : Turn → Ring u → Ring u
  after_send t r = send_on t (after_recv t r)

  abbrev pub resumed_with : Turn → Store
  resumed_with t =
      update t.at_recv c.at (record (waiting c.fiber) { res = pos (length t.datagram.payload) })

  abbrev pub left_by : Turn → Store
  left_by t = update t.at_send c.at (record (waiting c.fiber) { res = pos t.sent })

  -- The ring and the setters after all the turns.
  abbrev pub answered : List Turn → Ring u → Ring u
  answered [] r = r
  answered (t ∷ ts) r = answered ts (after_send t r)

  abbrev pub settled : List Turn → Store → Store
  settled [] h = h
  settled (t ∷ ts) h = settled ts (left_by t)

  -- The queue gets room for both calls of the turn, their completions come in after completions of
  -- others, and the server answers the datagram.
  abbrev pub IsServed : Turn → Ring u → Store → Type 0
  IsServed t r h =
      (t.full_before_recv < c.fuel)
      × (t.full_before_send < c.fuel)
      × c.IsAccepted t.datagram
      × IsFreeAfter c.yield t.full_before_recv r
      × Quiet c.fiber (λ a. a ≡ c.at) (update h c.at (waiting c.fiber)) t.in_before t.at_recv
      × IsFreeAfter c.yield t.full_before_send (after_recv t r)
      × Quiet c.fiber (λ a. a ≡ c.at) (update (resumed_with t) c.at (waiting c.fiber)) t.out_before
          t.at_send

  -- The turns follow each other, each on the ring and the setters that the one before leaves.
  pub data AllServed : List Turn → Ring u → Store → Type 0 where
    no_more : {r : Ring u} {h : Store} → AllServed [] r h
    and_then :
        {r : Ring u} {h : Store} {t : Turn} {ts : List Turn}
        → IsServed t r h
        → AllServed ts (after_send t r) (left_by t)
        → AllServed (t ∷ ts) r h
