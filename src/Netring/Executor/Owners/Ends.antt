-- ===== src/Netring/Executor/Owners/Ends.antt =====
-- A handler whose send has completed ends: its reply, its stack and its object go to the pools.
use hnet.Prelude.{
  is, ℕ, ◌+◌, ◌≡◌, ◌≢◌, refl, ap, subst, ◌∙◌, ◌==◌, true, false, none, some, Bool-cases, inl, inr,
  arith,
}
use hnet.Five.ObjectPool.{put}
use hnet.Ring2.Kernel.{UsefulCqe}
use hnet.Netring.Request.{Request}
use hnet.Netring.Executor.{Handler, monostate, handler, store}
use hnet.Netring.Executor.Copies.{store_ne}
use hnet.Netring.Executor.Owners.{
  Allocators, Assets, buffer_in, stack_in, IsCoherent, IsIdle, IsSound,
}
use hnet.Netring.Executor.Owners.Weights.{owns, weigh, weigh-store, store-all}

module _ (al : Allocators) (s : Assets) (sound : IsSound al s) where
  -- What holds a request or a handler was allocated.
  pub used-made :
      (at : ℕ) → s.holders at ≢ monostate → weigh (is at) (al.object_log.made s.spare.state) ≡ 1
  used-made at used = elim (Bool-cases (weigh (is at) (al.object_log.made s.spare.state) == 0)) [
    | inl never ↦ absurd (used (sound.untouched at (ground (arith, never))))
    | inr made ↦ ground (arith, made, sound.once at)
  ]

  -- What holds something in use is not in the pool.
  pub busy-not_spare : (at : ℕ) → ¬ IsIdle (s.holders at) → weigh (is at) s.spare.objects ≡ 0
  busy-not_spare at busy = elim (Bool-cases (weigh (is at) s.spare.objects == 0)) [
    | inl out ↦ ground (arith, out)
    | inr there ↦ absurd (busy (sound.idle at (ground (arith, there))))
  ]

  module _ (at : ℕ) (h : Handler) (cqe : UsefulCqe) (sent : Request)
      (held : s.holders at ≡ handler h) (waits : h.reply ≡ some sent) where
    abbrev pub ended : Handler
    ended = record h { last_cqe = cqe; reply = none; finished = true }

    running : h.finished ≡ false
    running =
        let c : IsCoherent (handler h) = subst IsCoherent held (sound.coherent at) in rw waits at c

    held_buffers :
        (b : ℕ) → buffer_in b (s.holders at) ≡ owns b h.request.iov_base + owns b sent.iov_base
    held_buffers b = rw (held, waits) refl

    held_stacks : (b : ℕ) → stack_in b (s.holders at) ≡ is b h.stack
    held_stacks b = rw (held, running) refl

    pub ends-IsSound : IsSound al (record s {
      stacks = put h.stack s.stacks;
      spare = put at s.spare;
      requests = put sent s.requests;
      holders = store at (handler ended) s.holders;
    })
    unfolding put
    ends-IsSound =
        let made = used-made at (λ e. ground (arith, held)) in
        let out =
          busy-not_spare at (λ i.
            let i' : IsIdle (handler h) = subst IsIdle held i in ground (arith, running, i')) in
        record {
          stack_factory = sound.stack_factory;
          object_factory = sound.object_factory;
          request_factory = sound.request_factory;
          once = sound.once;
          untouched = λ a never.
              store_ne at a (handler ended) s.holders (λ e. ground (arith, e, never, made))
              ∙ sound.untouched a never;
          spare_made = λ a. elim (Bool-cases (a == at)) [
            | inl same ↦
                (let here : a ≡ at = ground (arith, same) in
                  ground (
                    arith,
                    same,
                    ap (λ x. weigh (is x) s.spare.objects) here,
                    ap (λ x. weigh (is x) (al.object_log.made s.spare.state)) here,
                    made,
                    out,
                  ))
            | inr other ↦ ground (arith, other, sound.spare_made a)
          ];
          idle = λ a there.
              store-all IsIdle at (handler ended) s.holders a refl
                (λ apart. sound.idle a (ground (arith, there, apart)));
          coherent = λ a.
              store-all IsCoherent at (handler ended) s.holders a refl (λ apart. sound.coherent a);
          buffers = λ b. omega (
            arith,
            sound.buffers b,
            weigh-store (buffer_in b) at (handler ended) s.holders _ made,
            held_buffers b,
          );
          stacks_once = λ b. omega (
            arith,
            sound.stacks_once b,
            weigh-store (stack_in b) at (handler ended) s.holders _ made,
            held_stacks b,
          );
        }
