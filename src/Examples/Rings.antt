-- ===== src/Examples/Rings.antt =====
-- The ring and the poller on the simulated kernel.
use hnet.Prelude.{
  ◌⊎◌, ℕ, ◌<◌, ◌≡◌, ◌↔◌, refl, true, false, List, [], ◌∷◌, ◌++◌, Option, none, some, arith,
}
use hnet.Prelude.Int.{ℤ, pos}
use hnet.Prelude.Results.{ok}
use hnet.Ring2.Kernel.{UsefulCqe}
use hnet.Ring2.Ring.{Ring, submit, get_slot, try_poll, try_poll_many}
use hnet.Ring2.Ring.{RingParams, no_cpu, make_ring, poll, has_pending}
use hnet.Ring2.Ring.Reachable.{created, submits, polls, has_pending-Reachable}
use hnet.Ring2.Ring.Starvation.{submit-counts}
use hnet.Ring2.Poller.{RingPoller, poll_once, poll_fiber, poll_fibers}
use hnet.Ring2.Poller.Setters.{Store, update, dispatch, dispatch_all}
use hnet.Ring2.Poller.Delivery.{poll_once_loses}
use hnet.Ring2.Poller.Sequence.{poll_times, poll_times-dispatch_all}
use hnet.Ring2.Messages.{recv_sqe}
use hnet.Ring2.Poller.Quiet.{Quiet, still, other}
use hnet.Ring2.Submitter.Untimed.{waiting, dispatch_waiting}
use hnet.Ring2.Submitter.Liveness.{AllOthers, poll_times-wakes}
use hnet.Examples.Simulation.{
  Sim, load, sim, sim_accounted, sim_fifo, ring_of, cqe_at, stay, flush, full_ring, sleepers,
}

-- A poller whose counter is at 3, with a limit.
abbrev poller : ℕ → List UsefulCqe → RingPoller sim
poller limit cs = record { ring = ring_of cs; attempts = 3; max_attempts = limit }

poll_once_loses_example :
    (p' : RingPoller sim) × (new : List UsefulCqe) × (poll_once sim
        (poller 4 (cqe_at 1 ∷ cqe_at 2 ∷ cqe_at 3 ∷ []))
      ≡ ok (some (cqe_at 2), p'))
    × (p'.ring.ring.cq ≡ (cqe_at 3 ∷ []) ++ new)
poll_once_loses_example =
    poll_once_loses sim_fifo (poller 4 (cqe_at 1 ∷ cqe_at 2 ∷ cqe_at 3 ∷ [])) (cqe_at 1) (cqe_at 2)
      (cqe_at 3 ∷ []) (omega arith) refl

-- The ring that a poll of two completions leaves.
abbrev polled : RingPoller sim
polled = record {
  ring = record (ring_of (cqe_at 2 ∷ [])) { cycles = 0 };
  attempts = 0;
  max_attempts = 9;
}

abbrev answered : Store
answered = update sleepers 1 (record { fiber = 7; res = pos 0; should_wake = none })

delivers :
    poll_fiber sim (poller 9 (cqe_at 1 ∷ cqe_at 2 ∷ [])) sleepers ≡ ok (some 7, polled, answered)
unfolding poll_fiber try_poll dispatch update
delivers = refl

abbrev drained : RingPoller sim
drained = record { ring = ring_of []; attempts = 3; max_attempts = 9 }

abbrev woken : List (Option ℕ)
woken = some 7 ∷ some 8 ∷ []

abbrev both_answered : Store
both_answered = update answered 2 (record { fiber = 8; res = pos 0; should_wake = none })

delivers_all :
    poll_fibers sim (poller 9 (cqe_at 1 ∷ cqe_at 2 ∷ [])) sleepers
    ≡ ok (woken, drained, both_answered)
unfolding poll_fibers try_poll_many dispatch_all dispatch update
delivers_all = refl

-- A full queue, which another fiber flushes while the submission waits.
abbrev after_wait : ℤ × Ring sim
after_wait = (
  pos 1,
  record {
    ring = record { depth = 2; waiting = []; cq = cqe_at 0 ∷ cqe_at 0 ∷ cqe_at 0 ∷ [] };
    pending_count = 3;
    cycles = 1;
    times = 1;
  },
)

submits_waiting : submit sim flush 2 (recv_sqe 5 10 false) false full_ring ≡ some after_wait
unfolding submit get_slot
submits_waiting = refl

submit-counts_example :
    (res : ℤ) × (r' : Ring sim) × (submit sim flush 2 (recv_sqe 5 10 false) false full_ring
      ≡ some (res, r'))
    × (r'.cycles ≡ 1)
    × (((◌≡◌ {A = ℕ} 1 0) × (r'.times ≡ 0)) ⊎ ((0 < 1) × (r'.times ≡ 1)))
    × (r'.pending_count ≡ 3)
    × (r'.ring ≡ record { depth = 2; waiting = []; cq = cqe_at 0 ∷ cqe_at 0 ∷ cqe_at 0 ∷ [] })
submit-counts_example =
    submit-counts flush (λ s. (refl, refl)) 1 2 (recv_sqe 5 10 false) false full_ring (refl, refl)
      (omega arith) (omega arith)

-- A kernel that has just set a queue up.
abbrev queue_init : ℕ → RingParams → ℤ × Sim
queue_init entries params = (pos 0, record { depth = entries; waiting = []; cq = [] })

abbrev new_ring : Ring sim
new_ring = record {
  ring = record { depth = 8; waiting = []; cq = [] };
  pending_count = 0;
  cycles = 0;
  times = 0;
}

abbrev one_done : Ring sim
one_done = record new_ring {
  ring = record { depth = 8; waiting = []; cq = cqe_at 0 ∷ [] };
  pending_count = 1;
}

makes : make_ring sim queue_init 8 no_cpu ≡ ok new_ring
unfolding make_ring
makes = refl

submits_one : submit sim stay 1 (recv_sqe 3 10 false) false new_ring ≡ some (pos 1, one_done)
unfolding submit get_slot
submits_one = refl

polls_one : poll sim one_done ≡ ok (cqe_at 0, new_ring)
unfolding poll
polls_one = refl

has_pending_example : (has_pending sim new_ring ≡ true) ↔ (0 < load new_ring.ring)
has_pending_example =
    has_pending-Reachable sim_accounted stay (λ s b. b) queue_init 8 no_cpu new_ring new_ring refl
      makes
      (polls {r = one_done} {r' = new_ring} (cqe_at 0)
        (submits {r = new_ring} {r' = one_done} 1 (recv_sqe 3 10 false) false (pos 1) created
          submits_one (omega arith))
        polls_one)

dispatches_both : dispatch_all (cqe_at 1 ∷ cqe_at 2 ∷ []) sleepers ≡ ok (woken, both_answered)
unfolding dispatch_all dispatch update
dispatches_both = refl

poll_times-dispatch_all_example :
    (p' : RingPoller sim) × (new : List UsefulCqe) × (poll_times sim 2
        (poller 9 (cqe_at 1 ∷ cqe_at 2 ∷ cqe_at 3 ∷ []))
        sleepers
      ≡ ok (woken, p', both_answered))
    × (p'.ring.ring.cq ≡ (cqe_at 3 ∷ []) ++ new)
poll_times-dispatch_all_example =
    poll_times-dispatch_all sim_fifo (cqe_at 1 ∷ cqe_at 2 ∷ []) (cqe_at 3 ∷ [])
      (poller 9 (cqe_at 1 ∷ cqe_at 2 ∷ cqe_at 3 ∷ [])) sleepers both_answered woken (omega arith)
      (omega arith) refl dispatches_both

-- Fiber 8 waits behind the completion of fiber 7, which one call of the poller delivers.
abbrev seventh : Store
seventh = update sleepers 1 (record (waiting 7) { res = pos 0 })

delivers_seventh : dispatch (cqe_at 1) sleepers ≡ ok (some 7, seventh)
unfolding update
delivers_seventh = dispatch_waiting 7 1 (pos 0) sleepers refl

behind_seventh : Quiet 8 (λ a. a ≡ 2) sleepers (cqe_at 1 ∷ []) seventh
behind_seventh =
    other (some 7) delivers_seventh (λ e. omega (arith, e)) (λ e. absurd (ground (arith, e))) still

poll_times-wakes_example :
    (ws : List (Option ℕ)) × (p' : RingPoller sim) × (g : Store) × (poll_times sim 2
        (poller 9 (cqe_at 1 ∷ cqe_at 2 ∷ cqe_at 3 ∷ []))
        sleepers
      ≡ ok (ws ++ some 8 ∷ [], p', g))
    × AllOthers 8 ws
    × (g 2 ≡ some (record (waiting 8) { res = pos 0 }))
unfolding update
poll_times-wakes_example =
    poll_times-wakes sim_fifo (poller 9 (cqe_at 1 ∷ cqe_at 2 ∷ cqe_at 3 ∷ [])) 8 2 (pos 0)
      (cqe_at 1 ∷ []) (cqe_at 3 ∷ []) sleepers seventh (omega arith) (omega arith) refl
      behind_seventh refl
