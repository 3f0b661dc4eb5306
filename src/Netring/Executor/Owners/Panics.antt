-- ===== src/Netring/Executor/Owners/Panics.antt =====
-- The faults that the loop cannot have.
use hnet.Prelude.{ℕ, suc, ◌≡◌, ◌≢◌, List, false, some, arith, subst}
use hnet.Prelude.Results.{Result, ok, err, Ends, After, After-Ends, After-map}
use hnet.Ring2.Kernel.{IoUring}
use hnet.Netring.Uring.{recv_cookie}
use hnet.Netring.Uring.Tracked.{IsTracked, recv_cookie-open}
use hnet.Netring.Request.{make_request}
use hnet.Netring.Executor.{
  Fault, unreachable, no_reply, request, World, Arrival, start_loop, dispatch_loop,
}
use hnet.Netring.Executor.Start.{first, started, start_loop_lem}
use hnet.Netring.Executor.Owners.{Allocators}
use hnet.Netring.Executor.Owners.Waits.{IsExpected}
use hnet.Netring.Executor.Owners.Begins.{IsFresh, started-IsOwned}
use hnet.Netring.Executor.Owners.Completions.{
  waits_for, waits_for-store, IsServing, dispatch_loop-IsServing,
}

Ends-not :
    {A : Type 0} (P : A → Type 0) (r : Result Fault A) (e : Fault)
    → Ends P IsExpected r
    → ¬ IsExpected e
    → r ≢ err e
Ends-not P r e h bad same = bad (subst (Ends P IsExpected) same h)

module _ {u : IoUring} (k : IsTracked u) (al : Allocators) (fd : ℕ) where
  -- What the loop starts with is awaited.
  pub started-IsServing :
      (w : World u) (ring : u.Q)
      → IsFresh al w
      → ((b : ℕ) → k.open_for w.ring b ≡ 0)
      → recv_cookie u fd 500 (first fd al.alloc_stack al.new_object al.malloc w) false w.ring
        ≡ some ring
      → IsServing k fd al (started fd al.alloc_stack al.new_object al.malloc w ring)
  started-IsServing w ring f nothing posted = (
    started-IsOwned al fd w ring f,
    λ b.
        let at = first fd al.alloc_stack al.new_object al.malloc w in
        let base = (al.malloc w.requests.state).0 in
        ground (
          arith,
          nothing b,
          recv_cookie-open k fd 500 at w.ring ring b posted,
          waits_for-store at (request (make_request base 500)) w.holders b,
          f.nothing_held at,
          f.nothing_held b,
        ),
  )

  -- The kernel completes each entry once, with its cookie, and has none at first, nothing was
  -- allocated, and the queue takes the first receive. Then the loop starts. Whatever comes in during
  -- its rounds, it never comes to the branch that panics, and no handler is resumed that has no open
  -- send. After the rounds, unless one fails, the kernel has a cookie exactly once if its object waits
  -- for a datagram or a send, and not otherwise.
  pub dispatch_loop-awaited :
      (fuel : ℕ) (arrivals : List Arrival) (w : World u) (ring : u.Q)
      → IsFresh al w
      → ((b : ℕ) → k.open_for w.ring b ≡ 0)
      → recv_cookie u fd 500 (first fd al.alloc_stack al.new_object al.malloc w) false w.ring
        ≡ some ring
      → (w1 : World u) × (start_loop u fd al.alloc_stack al.new_object al.malloc (suc fuel) w
          ≡ ok w1)
        × (dispatch_loop u fd arrivals w1 ≢ err unreachable)
        × (dispatch_loop u fd arrivals w1 ≢ err no_reply)
        × After
            (λ w'. (b : ℕ) → k.open_for w'.ring b ≡ waits_for (w'.holders b))
            (dispatch_loop u fd arrivals w1)
  dispatch_loop-awaited fuel arrivals w ring f nothing posted =
      let w1 = started fd al.alloc_stack al.new_object al.malloc w ring in
      let P = IsServing k fd al in
      let run = dispatch_loop u fd arrivals w1 in
      let serves : Ends P IsExpected run =
        dispatch_loop-IsServing k fd al arrivals w1 (started-IsServing w ring f nothing posted) in
      (
        w1,
        start_loop_lem fd al.alloc_stack al.new_object al.malloc w fuel ring posted,
        Ends-not P run unreachable serves (λ e. e),
        Ends-not P run no_reply serves (λ e. e),
        After-map P _ run (λ w' serving. serving.1) (After-Ends P IsExpected run serves),
      )
