-- ===== src/Programs/Server/Accept/Rounds.antt =====
-- What the accept loop does over its rounds.
use Prim.Native.Nat.{bit_or}
use hnet.Prelude.{
  if◌then◌else◌, true, append-nil, append_assoc, map, sym, ◌∙◌, ℕ, ◌<◌, ◌≡◌, ◌≢◌, refl, false, List,
  [], ◌∷◌, ◌++◌, some, arith,
}
use hnet.Prelude.Int.{ℤ, pos, ◌-ℤ◌, ◌≤ℤ◌, ◌<ℤ◌, ltb_ℤ, ◌==ℤ◌, neg_ℕ, pos_part}
use hnet.Prelude.Results.{ok, err}
use hnet.Ring2.Addr.{Addr}
use hnet.Ring2.Errors.{enocqe, bad_accept}
use hnet.Ring2.Kernel.{UsefulCqe, accept, IoUring}
use hnet.Ring2.Ring.{Ring}
use hnet.Ring2.Ring.Starvation.{IsFreeAfter, submitted}
use hnet.Ring2.Poller.Setters.{Store, update}
use hnet.Ring2.Poller.Quiet.{Quiet}
use hnet.Ring2.Submitter.Untimed.{waiting, done, ring_submit_lem}
use hnet.Ring2.Messages.{plain_sqe, accept_connection}
use hnet.Programs.Server.Accept.{
  Fcntl, o_nonblock, accept_loop, set_blocking, Accepted, Incoming, accept_round,
}

-- The system after the flags of a descriptor were read, and set again with `O_NONBLOCK` among them if
-- they could be read.
abbrev pub nonblocking : (c : Fcntl) → ℤ → c.S → c.S
nonblocking c x s =
    let (flags, s1) = c.getfl x s in
    let (ret, s2) = c.setfl x (bit_or (pos_part flags) o_nonblock) s1 in
    if flags ==ℤ neg_ℕ 1 then s1 else s2

set_blocking-nonblocking :
    (c : Fcntl) (x : ℤ) (s : c.S) → pos 0 ≤ℤ x → (set_blocking c x false s).1 ≡ nonblocking c x s
unfolding set_blocking
set_blocking-nonblocking c x s good = ground arith

-- One round: the rounds of `submit` without a slot, the completions before and after its own, the
-- setters that those before it leave, the peer's address, and the result of its own completion.
pub record Turn : Type 0 where
  pub full : ℕ
  pub before : List UsefulCqe
  pub after : List UsefulCqe
  pub left : Store
  pub peer : Addr
  pub res : ℤ

module _ {u : IoUring} (c : Fcntl) (yield : Ring u → Ring u) (fuel fiber at socket : ℕ) where
  abbrev pub incoming : Turn → Incoming
  incoming t = record { arrivals = t.before ++ done at t.res ∷ t.after; peer = t.peer }

  abbrev pub accepted : Turn → Accepted
  accepted t = record { fd = t.res; addr = t.peer }

  abbrev pub next_ring : Turn → Ring u → Ring u
  next_ring t r =
      (submitted yield t.full (record (plain_sqe (accept socket)) { user_data = at }) false r).1

  abbrev pub next_store : Turn → Store
  next_store t = update t.left at (record (waiting fiber) { res = t.res })

  -- The queue gets a free slot, and the completions before the round's own are for other setters.
  abbrev pub Waits : Turn → Ring u → Store → Type 0
  Waits t r h =
      (t.res ≢ enocqe)
      × (t.full < fuel)
      × IsFreeAfter yield t.full r
      × Quiet fiber (λ a. a ≡ at) (update h at (waiting fiber)) t.before t.left

  -- Rounds that each accept a connection.
  abbrev pub Accepts : List Turn → Ring u → Store → Type 0
  Accepts [] r h = Unit {0}
  Accepts (t ∷ ts) r h = Waits t r h × (pos 0 ≤ℤ t.res) × Accepts ts (next_ring t r) (next_store t)

  abbrev pub rings : List Turn → Ring u → Ring u
  rings [] r = r
  rings (t ∷ ts) r = rings ts (next_ring t r)

  abbrev pub stores : List Turn → Store → Store
  stores [] h = h
  stores (t ∷ ts) h = stores ts (next_store t)

  abbrev pub made_nonblocking : List Turn → c.S → c.S
  made_nonblocking [] s = s
  made_nonblocking (t ∷ ts) s = made_nonblocking ts (nonblocking c t.res s)

  accept_round_accepts :
      (t : Turn) (spawned : List Accepted) (s : c.S) (r : Ring u) (h : Store)
      → Waits t r h
      → pos 0 ≤ℤ t.res
      → accept_round u c yield fuel fiber at socket (incoming t) spawned s r h
        ≡ some (ok (spawned ++ accepted t ∷ [], nonblocking c t.res s, next_ring t r, next_store t))
  unfolding accept_round accept_connection
  accept_round_accepts t spawned s r h (x_set, nf, free, quiet) good =
      let ran =
        ring_submit_lem yield t.full fuel fiber at t.before t.after (plain_sqe (accept socket))
          t.res r h t.left x_set nf free quiet in
      let not_negative : ltb_ℤ t.res (pos 0) ≡ false = ground arith in
      rw (ran, accept_round)
        (rw (not_negative, accept_round, set_blocking-nonblocking c t.res s good) refl)

  accept_round_fails :
      (t : Turn) (spawned : List Accepted) (s : c.S) (r : Ring u) (h : Store)
      → Waits t r h
      → t.res <ℤ pos 0
      → accept_round u c yield fuel fiber at socket (incoming t) spawned s r h
        ≡ some (err (bad_accept (pos 0 -ℤ t.res)))
  unfolding accept_round accept_connection
  accept_round_fails t spawned s r h (x_set, nf, free, quiet) bad =
      let ran =
        ring_submit_lem yield t.full fuel fiber at t.before t.after (plain_sqe (accept socket))
          t.res r h t.left x_set nf free quiet in
      let negative : ltb_ℤ t.res (pos 0) ≡ true = ground arith in
      rw (ran, accept_round) (rw (negative, accept_round) refl)

  accept_loop-Accepts :
      (ts : List Turn) (es : List Incoming) (spawned : List Accepted) (s : c.S) (r : Ring u)
      (h : Store)
      → Accepts ts r h
      → accept_loop u c yield fuel fiber at socket (map incoming ts ++ es) spawned s r h
        ≡ accept_loop u c yield fuel fiber at socket es
            (spawned ++ map accepted ts)
            (made_nonblocking ts s)
            (rings ts r)
            (stores ts h)
  unfolding accept_loop
  accept_loop-Accepts [] es spawned s r h accepts = rw (append-nil spawned) refl
  accept_loop-Accepts (t ∷ ts) es spawned s r h (waits, good, accepts) =
      rw (accept_round_accepts t spawned s r h waits good, accept_loop)
        (accept_loop-Accepts ts es (spawned ++ accepted t ∷ []) (nonblocking c t.res s)
            (next_ring t r) (next_store t) accepts
          ∙ rw (append_assoc spawned (accepted t ∷ []) (map accepted ts)) refl)

  -- Rounds in which the queue gets a free slot, the completions before each round's own are for other
  -- setters, and each result is a descriptor and not -ENOCQE: the loop goes through them, whatever
  -- completes before and after, and hands each descriptor with its peer to a fiber of its own, in
  -- their order. The flags of each are read and, unless that fails, set with `O_NONBLOCK` among them,
  -- whether that works or not. A later round whose result is an error ends the loop with it, and what
  -- would come after is not looked at.
  pub accept_loop_lem :
      (ts : List Turn) (last : Turn) (es : List Incoming) (spawned : List Accepted) (s : c.S)
      (r : Ring u) (h : Store)
      → Accepts ts r h
      → Waits last (rings ts r) (stores ts h)
      → last.res <ℤ pos 0
      → (accept_loop u c yield fuel fiber at socket (map incoming ts) spawned s r h
          ≡ some (ok (spawned ++ map accepted ts, made_nonblocking ts s, rings ts r, stores ts h)))
        × (accept_loop u c yield fuel fiber at socket
              (map incoming ts ++ incoming last ∷ es)
              spawned
              s
              r
              h
            ≡ some (err (bad_accept (pos 0 -ℤ last.res))))
  unfolding accept_loop
  accept_loop_lem ts last es spawned s r h accepts waits bad = (
    rw (sym (append-nil (map incoming ts))) (accept_loop-Accepts ts [] spawned s r h accepts),
    accept_loop-Accepts ts (incoming last ∷ es) spawned s r h accepts
        ∙ rw
            (
              accept_round_fails last (spawned ++ map accepted ts) (made_nonblocking ts s)
                  (rings ts r) (stores ts h) waits bad,
              accept_loop,
            )
            refl,
  )
