-- ===== src/Netring/Executor.antt =====
-- netring/netring/uf.h and uf.cc: the dispatch loop, which runs a handler for each datagram, and the
-- handler of src/srv.cc, which sends the datagram back twice over.
-- A handler runs on a stack of its own: the loop switches to it, and it switches back when it waits
-- for its send (`yield`) and when it ends, so it runs in two parts. An object that is moved keeps its
-- buffer (Netring.Request), so moves are not written out.
pub mod Copies
pub mod Replies
pub mod Recycling
pub mod Start
pub mod Owners
use hnet.Prelude.{
  ℕ, ◌+◌, ◌*◌, Bool, true, false, List, [], ◌∷◌, ◌++◌, Option, none, some, take, length, leb, ◌&&◌,
  ◌==◌, if◌then◌else◌,
}
use hnet.Prelude.Int.{ℤ, pos, pos_part, leb_ℤ}
use hnet.Prelude.Results.{Result, ok, err, ◌>>=◌}
use hnet.Prelude.Memory.{overwrite, write_at}
use hnet.Five.ObjectPool.{ObjectPoolLite, make, get, put}
use hnet.Ring2.Kernel.{UsefulCqe, IoUring}
use hnet.Ring2.Addr.{Addr, in6}
use hnet.Netring.Uring.{send_cookie, recv_cookie, poll_cookie}
use hnet.Netring.Request.{Request, SockAddr6, make_request, free, zero_cqe}

-- A failed wait, WHEELS_PANIC, and undefined behaviour: a null entry of a full queue, a copy from or
-- to what is not in a buffer, a size that is negative; `undefined` stands for any other.
pub data Fault : Type 0 where
  wait_failed unreachable null_sqe out_of_bounds negative_size no_reply undefined : Fault

-- `BaseHandler` with what `Handler::handle` keeps on its stack: the reply, while its send is open.
-- The contexts and the pointers to the loop's own objects are left out.
pub record Handler : Type 0 where
  pub request : Request
  pub stack : ℕ
  pub cookie : ℕ
  pub last_cqe : UsefulCqe
  pub finished : Bool
  pub reply : Option Request

-- `ReqOrHandler`.
pub data Holder : Type 0 where
  monostate : Holder
  request : Request → Holder
  handler : Handler → Holder

-- What the loop works on: the ring, the objects that cookies point to and the buffers, by address,
-- the three pools, and the buffers that were freed. Stacks are known by their addresses.
pub record World (u : IoUring) : Type 0 where
  pub ring : u.Q
  pub holders : ℕ → Holder
  pub buffers : ℕ → List ℕ
  pub stacks : ObjectPoolLite ℕ ℕ
  pub holder_pool : ObjectPoolLite ℕ ℕ
  pub requests : ObjectPoolLite ℕ Request
  pub freed : List ℕ

unfoldable pub store : {A : Type 0} → ℕ → A → (ℕ → A) → ℕ → A
store at a f b = if b == at then a else f b

-- What a datagram brings that the kernel writes into a request.
pub record Arrival : Type 0 where
  pub payload : List ℕ
  pub from : SockAddr6

abbrev pub need : {A : Type 0} → Fault → Option A → Result Fault A
need fault none = err fault
need fault (some a) = ok a

-- `memcpy(dst + at, src, n)`.
unfoldable pub memcpy : ℕ → ℕ → List ℕ → List ℕ → Result Fault (List ℕ)
memcpy at n src dst =
    if leb n (length src) && leb (at + n) (length dst)
    then ok (write_at at (take n src) dst)
    else err out_of_bounds

abbrev pub size_of : ℤ → Result Fault ℕ
size_of res = if leb_ℤ (pos 0) res then ok (pos_part res) else err negative_size

abbrev pub addr_of : SockAddr6 → Addr
addr_of a = record { addr = in6 a.sin6_port a.sin6_addr; addrlen = 28 }

-- The destructor of what an object held that is replaced.
abbrev pub release : Holder → List ℕ
release monostate = []
release (request r) = free r.iov_base
release (handler h) = free h.request.iov_base

-- The constructor of `BaseHandler`.
abbrev pub make_handler : Request → ℕ → ℕ → Handler
make_handler r stack cookie = record {
  request = r;
  stack = stack;
  cookie = cookie;
  last_cqe = zero_cqe;
  finished = false;
  reply = none;
}

abbrev pub is_finished : Handler → Bool
is_finished h = h.finished

-- The factory of the pool of requests: a new one of 500 bytes.
abbrev pub new_request : (ℕ → ℕ × ℕ) → ℕ → Request × ℕ
new_request malloc s = let (b, s') = malloc s in (make_request b 500, s')

module _ (u : IoUring) (fd : ℕ) where
  -- The kernel writes a datagram into the buffer of a request, and its sender.
  unfoldable pub arrive : Arrival → ℕ → Request → World u → World u × Request
  unfolding overwrite
  arrive a base r w = (
    record w {
      buffers = store base (overwrite (take r.iov_len a.payload) (w.buffers base)) w.buffers;
    },
    record r { addr = a.from },
  )

  -- `Handler::handle` up to `yield`, of the handler that is held at `at`.
  unfoldable pub start_handler : ℕ → Handler → World u → Result Fault (World u)
  unfolding memcpy
  start_handler at h w = do
    size ← size_of h.last_cqe.res
    let (reply, requests) = get w.requests
    from ← need out_of_bounds h.request.iov_base
    to ← need out_of_bounds reply.iov_base
    first ← memcpy 0 size (w.buffers from) (w.buffers to)
    second ← memcpy size size (w.buffers from) first
    let sent : Request = record reply { iov_len = size * 2; addr = h.request.addr }
    ring ←
        need null_sqe
          (send_cookie u fd (take (size * 2) second) (addr_of sent.addr) h.cookie w.ring)
    ok (record w {
      ring = ring;
      requests = requests;
      buffers = store to second w.buffers;
      holders = store at (handler (record h { reply = some sent })) w.holders;
    })

  -- `Handler::handle` from `yield` on, and the end of `Run`.
  unfoldable pub resume_handler : ℕ → Handler → World u → Result Fault (World u)
  resume_handler at h w = do
    reply ← need no_reply h.reply
    ok (record w {
      requests = put reply w.requests;
      holders = store at (handler (record h { reply = none; finished = true })) w.holders;
    })

  -- `if (handler.is_finished())`: the stack and the object go back to their pools.
  unfoldable pub retire : ℕ → World u → World u
  retire at w = elim (w.holders at) [
    | monostate ↦ w
    | request r ↦ w
    | handler h ↦
        if is_finished h
        then record w { stacks = put h.stack w.stacks; holder_pool = put at w.holder_pool }
        else w
  ]

  -- The branch of a request: a new handler takes it, the next receive is posted, and the handler runs.
  unfoldable pub accept_request : ℕ → UsefulCqe → Request → World u → Result Fault (World u)
  unfolding start_handler retire
  accept_request at cqe r w = do
    let (new, holder_pool) = get w.holder_pool
    let (stack, stacks) = get w.stacks
    let h : Handler = record (make_handler r stack new) { last_cqe = cqe }
    let (fresh, requests) = get w.requests
    let posted : World u = record w {
      holder_pool = holder_pool;
      stacks = stacks;
      requests = requests;
      freed = release (w.holders new) ++ w.freed;
      holders = store at (request fresh) (store new (handler h) w.holders);
    }
    ring ← need null_sqe (recv_cookie u fd fresh.iov_len at false posted.ring)
    w' ← start_handler new h (record posted { ring = ring })
    ok (retire new w')

  -- The body of the loop after the poll.
  unfoldable pub dispatch_cookie : UsefulCqe → Arrival → World u → Result Fault (World u)
  unfolding accept_request resume_handler arrive
  dispatch_cookie cqe a w = elim (w.holders cqe.user_data) [
    | monostate ↦ err unreachable
    | request r ↦ (do
      base ← need out_of_bounds r.iov_base
      let (w', r') = arrive a base r w
      accept_request cqe.user_data cqe r' w')
    | handler h ↦ (do
      w' ← resume_handler cqe.user_data (record h { last_cqe = cqe }) w
      ok (retire cqe.user_data w'))
  ]

  -- One round of the loop. The arrival counts if the completion is that of a receive.
  unfoldable pub loop_step : Arrival → World u → Result Fault (World u)
  unfolding dispatch_cookie
  loop_step a w = elim (poll_cookie u w.ring) [
    | err e ↦ err wait_failed
    | ok (cqe, q) ↦ dispatch_cookie cqe a (record w { ring = q })
  ]

  -- `dispatch_loop` over its first rounds.
  unfoldable pub dispatch_loop : List Arrival → World u → Result Fault (World u)
  unfolding loop_step
  dispatch_loop [] w = ok w
  dispatch_loop (a ∷ rest) w = do w' ← loop_step a w; dispatch_loop rest w'

  -- What comes before the loop: the three pools, of ten objects each, and the first receive, of a
  -- request of 500 bytes. The stacks, the objects and the buffers that are allocated are arguments.
  unfoldable pub start_loop :
      (alloc_stack new_object malloc : ℕ → ℕ × ℕ) → ℕ → World u → Result Fault (World u)
  unfolding make make_request
  start_loop alloc_stack new_object malloc fuel w = do
    stacks ← need undefined (make fuel 10 alloc_stack w.stacks.state)
    holder_pool ← need undefined (make fuel 10 new_object w.holder_pool.state)
    requests ← need undefined (make fuel 10 (new_request malloc) w.requests.state)
    let (at, objects) = new_object holder_pool.state
    let (base, bases) = malloc requests.state
    let first = make_request base 500
    ring ← need null_sqe (recv_cookie u fd first.iov_len at false w.ring)
    ok (record w {
      ring = ring;
      stacks = stacks;
      holder_pool = record holder_pool { state = objects };
      requests = record requests { state = bases };
      holders = store at (request first) w.holders;
    })
