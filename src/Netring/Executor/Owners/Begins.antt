-- ===== src/Netring/Executor/Owners/Begins.antt =====
-- The owners from the start of the loop on.
use hnet.Prelude.{is, ℕ, suc, ◌+◌, ◌≡◌, refl, sym, ap, ◌∙◌, List, [], ◌∷◌, false, some, arith}
use hnet.Prelude.Results.{ok, After, After-map}
use hnet.Ring2.Kernel.{IoUring}
use hnet.Netring.Uring.{recv_cookie}
use hnet.Netring.Request.{make_request}
use hnet.Netring.Executor.{monostate, request, World, Arrival, start_loop, dispatch_loop}
use hnet.Netring.Executor.Copies.{store_self, store_ne}
use hnet.Netring.Executor.Start.{first, started, start_loop_lem}
use hnet.Netring.Executor.Owners.{Allocators, IsOwned, buffer_in, stack_in, IsCoherent}
use hnet.Netring.Executor.Owners.Weights.{owns, weigh, store-all}
use hnet.Netring.Executor.Owners.Rounds.{dispatch_loop-IsOwned}

module _ {u : IoUring} (al : Allocators) where
  -- How often a buffer is owned: by the objects, by the requests in the pool, or by nobody since it
  -- was freed.
  abbrev pub buffer_owners : ℕ → World u → ℕ
  buffer_owners b w =
      weigh (λ a. buffer_in b (w.holders a)) (al.object_log.made w.holder_pool.state)
      + weigh (λ r. owns b r.iov_base) w.requests.objects
      + weigh (is b) w.freed

  -- How often a stack is owned: by the handlers that have not ended, or by the pool.
  abbrev pub stack_owners : ℕ → World u → ℕ
  stack_owners b w =
      weigh (λ a. stack_in b (w.holders a)) (al.object_log.made w.holder_pool.state)
      + weigh (is b) w.stacks.objects

  -- Nothing was allocated yet.
  pub record IsFresh (w : World u) : Type 0 where
    pub no_stacks : al.stack_log.made w.stacks.state ≡ []
    pub no_objects : al.object_log.made w.holder_pool.state ≡ []
    pub no_buffers : al.buffer_log.made w.requests.state ≡ []
    pub nothing_held : (a : ℕ) → w.holders a ≡ monostate
    pub nothing_freed : w.freed ≡ []

  -- What the loop starts with is owned.
  pub started-IsOwned :
      (fd : ℕ) (w : World u) (ring : u.Q)
      → IsFresh w
      → IsOwned al (started fd al.alloc_stack al.new_object al.malloc w ring)
  unfolding make_request
  started-IsOwned fd w ring f =
      let at = first fd al.alloc_stack al.new_object al.malloc w in
      let base = (al.malloc w.requests.state).0 in
      let made : al.object_log.made (al.new_object w.holder_pool.state).1 ≡ at ∷ [] =
        al.object_log.grows w.holder_pool.state ∙ ap (λ l. at ∷ l) f.no_objects in
      let made' : al.buffer_log.made (al.malloc w.requests.state).1 ≡ base ∷ [] =
        al.buffer_log.grows w.requests.state ∙ ap (λ l. base ∷ l) f.no_buffers in
      let self = store_self at (request (make_request base 500)) w.holders in
      record {
        stack_factory = refl;
        object_factory = refl;
        request_factory = refl;
        once = λ a. rw made (ground arith);
        untouched = λ a never.
            let never' : is a at + 0 ≡ 0 = ap (weigh (is a)) (sym made) ∙ never in
            store_ne at a (request (make_request base 500)) w.holders
              (λ e. ground (arith, e, never'))
            ∙ f.nothing_held a;
        spare_made = λ a. omega arith;
        idle = λ a there. absurd (omega arith);
        coherent = λ a.
            store-all IsCoherent at (request (make_request base 500)) w.holders a tt
              (λ apart. rw (f.nothing_held a) tt);
        buffers = λ b. rw made (rw made' (rw self (rw f.nothing_freed (omega arith))));
        stacks_once = λ b. rw made (rw self (rw f.no_stacks refl));
      }

  -- From a world in which nothing was allocated, if the queue takes the first receive, the loop
  -- starts. Whatever comes in during its rounds, after them a buffer is owned as often as malloc
  -- returned it, and a stack as often as it was allocated, unless a round fails.
  pub dispatch_loop-owners :
      (fd fuel : ℕ) (arrivals : List Arrival) (w : World u) (ring : u.Q)
      → IsFresh w
      → recv_cookie u fd 500 (first fd al.alloc_stack al.new_object al.malloc w) false w.ring
        ≡ some ring
      → (w1 : World u) × (start_loop u fd al.alloc_stack al.new_object al.malloc (suc fuel) w
          ≡ ok w1)
        × After
            (λ w'.
              (b : ℕ)
              → (buffer_owners b w' ≡ weigh (is b) (al.buffer_log.made w'.requests.state))
                × (stack_owners b w' ≡ weigh (is b) (al.stack_log.made w'.stacks.state)))
            (dispatch_loop u fd arrivals w1)
  dispatch_loop-owners fd fuel arrivals w ring f posted = (
    started fd al.alloc_stack al.new_object al.malloc w ring,
    start_loop_lem fd al.alloc_stack al.new_object al.malloc w fuel ring posted,
    After-map (IsOwned al) _
        (dispatch_loop u fd arrivals (started fd al.alloc_stack al.new_object al.malloc w ring))
        (λ w' owned b. (owned.buffers b, owned.stacks_once b))
        (dispatch_loop-IsOwned fd al arrivals
          (started fd al.alloc_stack al.new_object al.malloc w ring) (started-IsOwned fd w ring f)),
  )
