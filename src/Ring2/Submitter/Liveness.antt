-- ===== src/Ring2/Submitter/Liveness.antt =====
-- A fiber that sleeps is woken.
use hnet.Prelude.{
  ℕ, suc, ◌+◌, ◌<◌, ◌^◌, ◌≡◌, ◌≢◌, refl, sym, ap, ◌∙◌, List, [], ◌∷◌, ◌++◌, append_assoc, Option,
  some, length, length-append,
}
use hnet.Prelude.Int.{ℤ}
use hnet.Prelude.Results.{ok}
use hnet.Ring2.Kernel.{UsefulCqe, IoUring, IsFifo}
use hnet.Ring2.Poller.Setters.{Store, update, update_self, dispatch_all}
use hnet.Ring2.Poller.Quiet.{Quiet, still, other, Quiet-keeps}
use hnet.Ring2.Poller.{RingPoller}
use hnet.Ring2.Poller.Sequence.{poll_times, poll_times-dispatch_all}
use hnet.Ring2.Submitter.Untimed.{waiting, done, dispatch_waiting}

-- No fiber of the list is mine.
abbrev pub AllOthers : ℕ → List (Option ℕ) → Type 0
AllOthers fiber [] = Unit {0}
AllOthers fiber (w ∷ ws) = (w ≢ some fiber) × AllOthers fiber ws

dispatch_all-Quiet :
    (fiber at : ℕ) (x : ℤ) {h h' : Store} {cs : List UsefulCqe}
    → Quiet fiber (λ a. a ≡ at) h cs h'
    → h' at ≡ some (waiting fiber)
    → (ws : List (Option ℕ)) × (dispatch_all (cs ++ done at x ∷ []) h
        ≡ ok (ws ++ some fiber ∷ [], update h' at (record (waiting fiber) { res = x })))
      × AllOthers fiber ws
      × (length ws ≡ length cs)
unfolding dispatch_all
dispatch_all-Quiet fiber at x {h} still live =
    ([], rw (dispatch_waiting fiber at x h live, dispatch_all) refl, tt, refl)
dispatch_all-Quiet fiber at x (other woken e foreign asleep quiet) live =
    let (ws, all, others, same) = dispatch_all-Quiet fiber at x quiet live in
    (woken ∷ ws, rw (e, dispatch_all) (rw (all, dispatch_all) refl), (asleep, others), ap suc same)

module _ {u : IoUring} (f : IsFifo u) where
  -- When the attempts so far leave at least two below the limit of the busy polling, and the limit fits
  -- in 64 bits: a fiber that waits on a setter, and whose completion is ready behind others that are not for it,
  -- is woken by the last of as many calls of `TryPoll` as completions stand before its own, and one
  -- more. No earlier call returns it, and its setter then has the result.
  pub poll_times-wakes :
      (p : RingPoller u) (fiber at : ℕ) (x : ℤ) (before later : List UsefulCqe) (h h' : Store)
      → p.attempts + 1 < p.max_attempts
      → p.max_attempts < 2 ^ 64
      → h at ≡ some (waiting fiber)
      → Quiet fiber (λ a. a ≡ at) h before h'
      → f.ready p.ring.ring ≡ before ++ done at x ∷ later
      → (ws : List (Option ℕ)) × (p' : RingPoller u) × (g : Store) × (poll_times u
            (length before + 1)
            p
            h
          ≡ ok (ws ++ some fiber ∷ [], p', g))
        × AllOthers fiber ws
        × (g at ≡ some (record (waiting fiber) { res = x }))
  poll_times-wakes p fiber at x before later h h' below fits live quiet ready =
      let (ws, all, others, same) =
        dispatch_all-Quiet fiber at x quiet (Quiet-keeps at refl quiet ∙ live) in
      let g = update h' at (record (waiting fiber) { res = x }) in
      let cs = before ++ done at x ∷ [] in
      let (p', new, polled, rest) =
        poll_times-dispatch_all f cs later p h g (ws ++ some fiber ∷ []) below fits
          (ready ∙ sym (append_assoc before (done at x ∷ []) later)) all in
      (
        ws,
        p',
        g,
        ap (λ n. poll_times u n p h) (sym (length-append before (done at x ∷ []))) ∙ polled,
        others,
        update_self h' at (record (waiting fiber) { res = x }),
      )
