-- ===== src/Programs/Client/Fibers.antt =====
-- src/infallible_udp.cc: the fibers of the client together. They take turns: a turn is a round of one
-- fiber, which ends where it waits again. Each has a start of its own; the timings and the count of
-- dead packets are shared.
pub mod Interleaving
pub mod Failures
use hnet.Prelude.{ℕ, List, [], ◌∷◌, ◌++◌, ◌==◌, if◌then◌else◌}
use hnet.Prelude.Results.{ok, err}
use hnet.Five.Time.{Instant, Duration}
use hnet.Ring2.Errors.{Outcome}
use hnet.Programs.Client.{Client, Reply, data_expected, client_step}

pub record Fibers : Type 0 where
  pub starts : ℕ → Instant
  pub timings : List Duration
  pub dead_packets : ℕ

-- What the fiber `thr` sends: the padded text and its number, and what it expects.
abbrev pub expected_of : (ℕ → List ℕ) → List ℕ → ℕ → List ℕ
expected_of decimal data_to_send thr = data_expected (data_to_send ++ decimal thr)

abbrev pub view_of_fiber : ℕ → Fibers → Client
view_of_fiber thr w = record {
  start = w.starts thr;
  timings = w.timings;
  dead_packets = w.dead_packets;
}

-- The start of one fiber changes.
unfoldable pub set_start : ℕ → Instant → (ℕ → Instant) → ℕ → Instant
set_start thr t starts a = if thr == a then t else starts a

-- What a turn writes back: the fiber's own start, and what is shared.
abbrev pub after_turn : ℕ → Client → Fibers → Fibers
after_turn thr c w = record {
  starts = set_start thr c.start w.starts;
  timings = c.timings;
  dead_packets = c.dead_packets;
}

-- A turn of the fiber `thr`.
unfoldable pub fiber_turn : (ℕ → List ℕ) → ℕ → Reply → Fibers → Outcome Fibers
fiber_turn expected thr e w = elim (client_step (expected thr) (view_of_fiber thr w) e) [
  | err x ↦ err x
  | ok c ↦ ok (after_turn thr c w)
]

-- Turns in the order in which the scheduler gives them.
unfoldable pub run_fibers : (ℕ → List ℕ) → List (ℕ × Reply) → Fibers → Outcome Fibers
unfolding fiber_turn
run_fibers expected [] w = ok w
run_fibers expected ((thr, e) ∷ turns) w = elim (fiber_turn expected thr e w) [
  | err x ↦ err x
  | ok w' ↦ run_fibers expected turns w'
]
