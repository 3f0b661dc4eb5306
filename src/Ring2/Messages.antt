-- ===== src/Ring2/Messages.antt =====
-- The requests of `Submitter` in ring2/ring2/submitter.cc: datagrams and connections. What the
-- kernel writes while a request is open, a payload and a sender, is an argument.
pub mod Receive
use hnet.Prelude.{
  ℕ, Bool, true, false, List, [], Option, none, some, length, take, replicate, if◌then◌else◌,
}
use hnet.Prelude.Int.{ℤ, pos, pos_part, ◌-ℤ◌, leb_ℤ, ltb_ℤ}
use hnet.Prelude.Results.{ok}
use hnet.Prelude.Memory.{overwrite}
use hnet.Five.Time.{Duration}
use hnet.Ring2.Errors.{bad_sendmsg, bad_accept}
use hnet.Ring2.Addr.{SockAddr, Addr, default_addr}
use hnet.Ring2.Kernel.{UsefulCqe, Op, recvmsg, sendmsg, accept, Sqe, IoUring}
use hnet.Ring2.Ring.{Ring}
use hnet.Ring2.Poller.Setters.{Store}
use hnet.Ring2.Submitter.{Run, ◌>>=◌, throw, ring_submit, ring_submit_timed}

pub record MsgHdr : Type 0 where
  pub raw_ret : ℤ
  pub buf : List ℕ
  pub addr : Addr

-- The bytes stand for the view of them.
pub record ReadView : Type 0 where
  pub ret : ℤ
  pub buf : List ℕ
  pub addr : Addr

pub record WriteView : Type 0 where
  pub buf : List ℕ
  pub addr : Addr

-- The bytes, and the socket address that the kernel writes into `result.addr`.
pub record Datagram : Type 0 where
  pub payload : List ℕ
  pub from : SockAddr

-- `result.addr` after a receive: its length stays the one that `Addr::Addr` gave it.
abbrev pub sender_of : Datagram → Addr
sender_of d = default_addr d.from

-- An entry before `ring_submit` adds its user data.
abbrev pub plain_sqe : Op → Sqe
plain_sqe o = record { op = o; user_data = 0; io_link = false; async = false; poll_first = false }

abbrev pub recv_sqe : ℕ → ℕ → Bool → Sqe
recv_sqe fd iov_len poll_first = record (plain_sqe (recvmsg fd iov_len)) {
  async = true;
  poll_first = poll_first;
}

abbrev pub send_sqe : ℕ → WriteView → Sqe
send_sqe fd ww = plain_sqe (sendmsg fd ww.buf ww.addr)

-- The first `res` bytes, or none if the result is an error.
unfoldable pub view_of : ℤ → List ℕ → List ℕ
view_of res buf = if leb_ℤ (pos 0) res then take (pos_part res) buf else []

unfoldable pub read_view : ℤ → List ℕ → Addr → ReadView
unfolding view_of
read_view res buf from = record { ret = res; buf = view_of res buf; addr = from }

module _ (u : IoUring) (yield : Ring u → Ring u) (fuel fiber : ℕ) (cqes : List UsefulCqe)
    (at : ℕ) where
  -- `recvmsg(fd)`, into a buffer of its own.
  unfoldable pub recvmsg_copy : ℕ → Datagram → Ring u → Store → Run (MsgHdr × Ring u × Store)
  unfolding view_of overwrite
  recvmsg_copy fd d r h = do
    (res, r', h') ← ring_submit u yield fuel fiber cqes at (recv_sqe fd 65_000 false) r h
    let bytes = view_of res (overwrite d.payload (replicate 65_000 0))
    some (ok (record { raw_ret = res; buf = bytes; addr = sender_of d }, r', h'))

  -- `recvmsg(fd, buf)`: the view, and the caller's buffer after the call.
  unfoldable pub recvmsg_into :
      ℕ → List ℕ → Datagram → Ring u → Store → Run (ReadView × List ℕ × Ring u × Store)
  unfolding read_view overwrite
  recvmsg_into fd buf d r h = do
    (res, r', h') ← ring_submit u yield fuel fiber cqes at (recv_sqe fd (length buf) false) r h
    let buf' = overwrite d.payload buf
    some (ok (read_view res buf' (sender_of d), buf', r', h'))

  -- `recvmsg(fd, buf, dur)`; the second address is that of the timeout's setter.
  unfoldable pub recvmsg_timed :
      ℕ
      → ℕ
      → List ℕ
      → Duration
      → Datagram
      → Ring u
      → Store
      → Run (ReadView × List ℕ × Ring u × Store)
  unfolding read_view overwrite
  recvmsg_timed timeout fd buf dur d r h = do
    (res, r', h') ←
        ring_submit_timed u yield fuel fiber cqes at timeout (recv_sqe fd (length buf) true) dur r h
    let buf' = overwrite d.payload buf
    some (ok (read_view res buf' (sender_of d), buf', r', h'))

  -- Both `sendmsg`, which differ in the type of the message alone.
  unfoldable pub sendmsg_view : ℕ → WriteView → Ring u → Store → Run (ℤ × Ring u × Store)
  sendmsg_view fd ww r h = do
    (res, r', h') ← ring_submit u yield fuel fiber cqes at (send_sqe fd ww) r h
    if ltb_ℤ res (pos 0) then throw (bad_sendmsg (pos 0 -ℤ res)) else some (ok (res, r', h'))

  unfoldable pub accept_connection : ℕ → Addr → Ring u → Store → Run (ℤ × Addr × Ring u × Store)
  accept_connection fd peer r h = do
    (res, r', h') ← ring_submit u yield fuel fiber cqes at (plain_sqe (accept fd)) r h
    if ltb_ℤ res (pos 0) then throw (bad_accept (pos 0 -ℤ res)) else some (ok (res, peer, r', h'))
