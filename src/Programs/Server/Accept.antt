-- ===== src/Programs/Server/Accept.antt =====
-- src/srv2.cc: the loop of the TCP server that takes connections. `fcntl` is an argument. A fiber that
-- is spawned and detached runs the loop of its connection, `tcp_serve`
-- of Server/Connections.antt.
pub mod Rounds
use Prim.Native.Nat.{bit_and, bit_or}
use hnet.Prelude.{
  ℕ, ◌-◌, ◌^◌, Bool, true, false, List, [], ◌∷◌, ◌++◌, Option, none, some, if◌then◌else◌,
}
use hnet.Prelude.Int.{ℤ, pos, pos_part, neg_ℕ, ltb_ℤ, ◌==ℤ◌}
use hnet.Prelude.Results.{ok}
use hnet.Ring2.Addr.{Addr}
use hnet.Ring2.Kernel.{UsefulCqe, IoUring}
use hnet.Ring2.Ring.{Ring}
use hnet.Ring2.Poller.Setters.{Store}
use hnet.Ring2.Submitter.{Run, ◌>>=◌}
use hnet.Ring2.Messages.{accept_connection}

-- The calls with `F_GETFL` and `F_SETFL`, on a state of the system's own.
pub record Fcntl : Type 1 where
  pub S : Type 0
  pub getfl : ℤ → S → ℤ × S
  pub setfl : ℤ → ℕ → S → ℤ × S

abbrev pub o_nonblock : ℕ
o_nonblock = 2_048

-- `SetSocketBlockingEnabled`. Flags that are not -1 are not negative; `~` is that of an `int`.
unfoldable pub set_blocking : (c : Fcntl) → ℤ → Bool → c.S → Bool × c.S
set_blocking c fd blocking s =
    let (flags, s1) = c.getfl fd s in
    let old = pos_part flags in
    let new = if blocking then bit_and old (2 ^ 32 - 1 - o_nonblock) else bit_or old o_nonblock in
    let (ret, s2) = c.setfl fd new s1 in
    if ltb_ℤ fd (pos 0)
    then (false, s)
    else (if flags ==ℤ neg_ℕ 1 then (false, s1) else (ret ==ℤ pos 0, s2))

-- What the spawned fiber captures.
pub record Accepted : Type 0 where
  pub fd : ℤ
  pub addr : Addr

-- What the poller and the network do in one round of the loop.
pub record Incoming : Type 0 where
  pub arrivals : List UsefulCqe
  pub peer : Addr

module _ (u : IoUring) (c : Fcntl) (yield : Ring u → Ring u) (fuel fiber at socket : ℕ) where
  -- The body of the loop: the connections so far, and the system's state.
  unfoldable pub accept_round :
      Incoming → List Accepted → c.S → Ring u → Store → Run (List Accepted × c.S × Ring u × Store)
  accept_round e spawned s r h = do
    (fd, addr, r', h') ← accept_connection u yield fuel fiber e.arrivals at socket e.peer r h
    some (
        ok (spawned ++ record { fd = fd; addr = addr } ∷ [], (set_blocking c fd false s).1, r', h'))

  -- The loop over its first rounds.
  unfoldable pub accept_loop :
      List Incoming
      → List Accepted
      → c.S
      → Ring u
      → Store
      → Run (List Accepted × c.S × Ring u × Store)
  unfolding accept_round
  accept_loop [] spawned s r h = some (ok (spawned, s, r, h))
  accept_loop (e ∷ es) spawned s r h = do
    (spawned', s', r', h') ← accept_round e spawned s r h
    accept_loop es spawned' s' r' h'
