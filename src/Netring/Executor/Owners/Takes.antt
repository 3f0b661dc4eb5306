-- ===== src/Netring/Executor/Owners/Takes.antt =====
-- A handler takes a request: the loop draws an object and a stack for it, a request for the next
-- receive, and the handler one for its reply.
use hnet.Prelude.{
  is, ℕ, ◌+◌, ◌≡◌, ◌≢◌, refl, sym, ap, subst, ◌∙◌, Option, ◌++◌, true, none, some, arith,
}
use hnet.Five.ObjectPool.{ObjectPoolLite, get}
use hnet.Ring2.Kernel.{UsefulCqe}
use hnet.Netring.Request.{Request, make_request, free}
use hnet.Netring.Executor.{
  Handler, Holder, monostate, request, handler, make_handler, store, release, new_request,
}
use hnet.Netring.Executor.Copies.{store_self, store_ne}
use hnet.Netring.Executor.Owners.{
  Allocators, Assets, buffer_in, stack_in, reply_owns, is_none, IsCoherent, IsIdle, IsSound,
}
use hnet.Netring.Executor.Owners.Weights.{
  owns, weigh, weigh-append, weigh-store, store-all, get-weigh, get-factory,
}
use hnet.Netring.Executor.Owners.Draws.{Drawn, draws}
use hnet.Netring.Executor.Owners.Ends.{used-made, busy-not_spare}

weigh-free : (b : ℕ) (base : Option ℕ) → weigh (is b) (free base) ≡ owns b base
weigh-free b none = refl
weigh-free b (some a) = omega arith

reply_owns-is_none : (b : ℕ) (r : Option Request) → is_none r ≡ true → reply_owns b r ≡ 0
reply_owns-is_none b none e = refl
reply_owns-is_none b (some r) e = ground arith

-- What the destructor frees of an idle object is all that it owns.
weigh-release :
    (b : ℕ) (x : Holder) → IsIdle x → IsCoherent x → weigh (is b) (release x) ≡ buffer_in b x
weigh-release b monostate idle coherent = refl
weigh-release b (request r) idle coherent = elim idle [ ]
weigh-release b (handler h) idle coherent =
    ground
      (arith, weigh-free b h.request.iov_base, reply_owns-is_none b h.reply (sym coherent ∙ idle))

stack_in-IsIdle : (b : ℕ) (x : Holder) → IsIdle x → stack_in b x ≡ 0
stack_in-IsIdle b monostate idle = refl
stack_in-IsIdle b (request r) idle = elim idle [ ]
stack_in-IsIdle b (handler h) idle = rw idle refl

module _ (al : Allocators) (s : Assets) (sound : IsSound al s) (at : ℕ) (cqe : UsefulCqe)
    (held taken sent : Request) (holds : s.holders at ≡ request held)
    (moved : taken.iov_base ≡ held.iov_base) where
  abbrev new : ℕ
  new = (get s.spare).0

  -- The handler as it is made, and as it waits for its send.
  abbrev pub begun : Handler
  begun = record (make_handler taken (get s.stacks).0 new) { last_cqe = cqe }

  abbrev pub waiting : Handler
  waiting = record begun { reply = some sent }

  abbrev pub posted : ℕ → Holder
  posted = store at (request (get s.requests).0) (store new (handler begun) s.holders)

  abbrev pub taken_by : ℕ → Holder
  taken_by = store new (handler waiting) posted

  drawn : Drawn al s sound
  drawn = draws al s sound

  at_made : weigh (is at) (al.object_log.made s.spare.state) ≡ 1
  at_made = used-made al s sound at (λ e. ground (arith, holds))

  not_idle : ¬ IsIdle (s.holders at)
  not_idle i = let i' : IsIdle (request held) = subst IsIdle holds i in i'

  at_out : weigh (is at) s.spare.objects ≡ 0
  at_out = busy-not_spare al s sound at not_idle

  pub apart : at ≢ new
  apart e = not_idle (rw e drawn.is_idle)

  pub idle_of_new : IsIdle (s.holders new)
  idle_of_new = drawn.is_idle

  at_made_then : weigh (is at) (al.object_log.made (get s.spare).1.state) ≡ 1
  at_made_then = omega (arith, drawn.kept at, drawn.made_once at, at_made)

  -- The weight of everything that is held, after the three changes.
  pub weigh-taken_by :
      (f : Holder → ℕ)
      → f monostate ≡ 0
      → let made = al.object_log.made s.spare.state in
        weigh (λ a. f (taken_by a)) (al.object_log.made (get s.spare).1.state)
          + f (s.holders new)
          + f (request held)
        ≡ weigh (λ a. f (s.holders a)) made + f (handler waiting) + f (request (get s.requests).0)
  weigh-taken_by f nothing =
      let made' = al.object_log.made (get s.spare).1.state in
      let inner = store new (handler begun) s.holders in
      let e1 = weigh-store f new (handler begun) s.holders made' drawn.is_made in
      let e2 = weigh-store f at (request (get s.requests).0) inner made' at_made_then in
      let e3 = weigh-store f new (handler waiting) posted made' drawn.is_made in
      let mine : posted new ≡ handler begun =
        store_ne at new (request (get s.requests).0) inner (λ e. apart (sym e))
        ∙ store_self new (handler begun) s.holders in
      let still : inner at ≡ request held =
        store_ne new at (handler begun) s.holders apart ∙ holds in
      omega (arith, e1, e2, e3, ap f mine, ap f still, drawn.same_weight f nothing)

  taken_by_ne : (a : ℕ) → a ≢ new → a ≢ at → taken_by a ≡ s.holders a
  taken_by_ne a e e' =
      store_ne new a (handler waiting) posted e
      ∙ (store_ne at a (request (get s.requests).0) (store new (handler begun) s.holders) e'
          ∙ store_ne new a (handler begun) s.holders e)

  pub requests_drawn :
      (b : ℕ) (p : ObjectPoolLite ℕ Request)
      → p.factory ≡ new_request al.malloc
      → owns b (get p).0.iov_base
          + weigh (λ r. owns b r.iov_base) (get p).1.objects
          + weigh (is b) (al.buffer_log.made p.state)
        ≡ weigh (λ r. owns b r.iov_base) p.objects
          + weigh (is b) (al.buffer_log.made (get p).1.state)
  unfolding make_request
  requests_drawn b p made =
      get-weigh (λ r. owns b r.iov_base) (λ s. weigh (is b) (al.buffer_log.made s)) p
        (λ s. rw made (ap (weigh (is b)) (al.buffer_log.grows s)))

  stacks_drawn :
      (b : ℕ)
      → is b (get s.stacks).0
          + weigh (is b) (get s.stacks).1.objects
          + weigh (is b) (al.stack_log.made s.stacks.state)
        ≡ weigh (is b) s.stacks.objects + weigh (is b) (al.stack_log.made (get s.stacks).1.state)
  stacks_drawn b =
      get-weigh (is b) (λ s. weigh (is b) (al.stack_log.made s)) s.stacks
        (λ s. rw sound.stack_factory (ap (weigh (is b)) (al.stack_log.grows s)))

  -- Everything that is owned still is, and the content that the new handler replaces is freed. The
  -- reply is a request that was drawn, with the length and the address changed at most.
  pub takes-IsSound :
      sent.iov_base ≡ (get (get s.requests).1).0.iov_base
      → IsSound al (record {
        stacks = (get s.stacks).1;
        spare = (get s.spare).1;
        requests = (get (get s.requests).1).1;
        holders = taken_by;
        freed = release (s.holders new) ++ s.freed;
      })
  takes-IsSound of_pool = record {
    stack_factory = get-factory s.stacks ∙ sound.stack_factory;
    object_factory = get-factory s.spare ∙ sound.object_factory;
    request_factory =
        get-factory (get s.requests).1 ∙ (get-factory s.requests ∙ sound.request_factory);
    once = drawn.made_once;
    untouched = λ a never.
        taken_by_ne a (λ e. ground (arith, e, never, drawn.is_made))
          (λ e. ground (arith, e, never, at_made_then))
        ∙ sound.untouched a (omega (arith, never, drawn.kept a));
    spare_made = λ a. omega (arith, drawn.fewer a, drawn.kept a, sound.spare_made a);
    idle = λ a there.
        rw
          (taken_by_ne a (λ e. ground (arith, e, there, drawn.is_out))
            (λ e. ground (arith, e, there, at_out, drawn.fewer a)))
          (sound.idle a (omega (arith, there, drawn.fewer a)));
    coherent = λ a. store-all IsCoherent new (handler waiting) posted a refl (λ e.
        store-all IsCoherent at (request (get s.requests).0) (store new (handler begun) s.holders) a
          tt (λ e'. rw (store_ne new a (handler begun) s.holders e) (sound.coherent a)));
    buffers = λ b. omega (
      arith,
      weigh-taken_by (buffer_in b) refl,
      requests_drawn b s.requests sound.request_factory,
      requests_drawn b (get s.requests).1 (get-factory s.requests ∙ sound.request_factory),
      weigh-append (is b) (release (s.holders new)) s.freed,
      weigh-release b (s.holders new) drawn.is_idle (sound.coherent new),
      ap (owns b) moved,
      ap (owns b) of_pool,
      sound.buffers b,
    );
    stacks_once = λ b. omega (
      arith,
      weigh-taken_by (stack_in b) refl,
      stacks_drawn b,
      stack_in-IsIdle b (s.holders new) drawn.is_idle,
      sound.stacks_once b,
    );
  }
