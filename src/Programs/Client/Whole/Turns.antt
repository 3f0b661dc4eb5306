-- ===== src/Programs/Client/Whole/Turns.antt =====
-- The turns of the client's fibers against the server of src/srv2.cc, over a network that may lose
-- packets.
use hnet.Prelude.{
  ltb, true, ℕ, suc, ◌+◌, ◌-◌, ◌*◌, ◌<◌, ◌≤◌, ◌^◌, ◌≡◌, refl, subst, ap, inl, inr, List, [], ◌∷◌,
  length, ◌==◌, if◌then◌else◌, Bool-cases, arith,
}
use hnet.Prelude.Int.{pos}
use hnet.Prelude.Results.{ok}
use hnet.Prelude.Memory.{overwrite}
use hnet.Five.Time.{Instant, Duration}
use hnet.Five.Time.Arithmetic.{sub_instants_later}
use hnet.Ring2.Addr.{Addr}
use hnet.Ring2.Errors.{esqe_timeout}
use hnet.Ring2.Messages.{ReadView, WriteView}
use hnet.Programs.Server.{echo, buf_size}
use hnet.Programs.Client.{Reply, client_step, data_expected}
use hnet.Programs.Client.Fibers.{Fibers, set_start, view_of_fiber, fiber_turn, run_fibers}
use hnet.Programs.EndToEnd.{request, round_trip, client_step-echo}
use hnet.Programs.Report.Range.{All, IsWithin}

-- The number that a fiber starts its round at changes.
abbrev pub begin_at : ℕ → ℕ → (ℕ → ℕ) → ℕ → ℕ
begin_at thr t begun i = if thr == i then t else begun i

-- Turns with a number of answered and a number of lost messages. The fiber `thr` sends `sent thr`.
-- An answer is what the server makes of the message in some buffer of its size; when the message or
-- the answer is lost, the receive times out. A round takes at most `span`, and no fiber's clock
-- goes back.
pub data Turns (span : ℕ) (sent : ℕ → List ℕ) : (ℕ → ℕ) → List (ℕ × Reply) → ℕ → ℕ → Type 0 where
  none_left : {begun : ℕ → ℕ} → Turns span sent begun [] 0 0
  answered :
      {begun : ℕ → ℕ} {turns : List (ℕ × Reply)} {n m : ℕ} (thr send t : ℕ) (client server : Addr)
      (buf buf' : List ℕ) (ww : WriteView)
      → begun thr ≤ t
      → t ≤ begun thr + span
      → t < 2 ^ 63
      → length buf ≡ buf_size
      → echo (request (sent thr) client) (overwrite (sent thr) buf) ≡ ok (ww, buf')
      → Turns span sent (begin_at thr t begun) turns n m
      → Turns span sent begun
          ((thr, round_trip (pos (suc send)) ww server (record { nanos = pos t })) ∷ turns)
          (suc n)
          m
  lost :
      {begun : ℕ → ℕ} {turns : List (ℕ × Reply)} {n m : ℕ} (thr send t : ℕ) (late : ReadView)
      → begun thr ≤ t
      → late.ret ≡ esqe_timeout
      → Turns span sent (begin_at thr t begun) turns n m
      → Turns span sent begun
          ((
            thr,
            record { send_res = pos (suc send); result = late; now = record { nanos = pos t } },
          )
            ∷ turns)
          n
          (suc m)

-- Every turn is answered or lost.
pub length-Turns :
    {span : ℕ} {sent : ℕ → List ℕ} {begun : ℕ → ℕ} {turns : List (ℕ × Reply)} {n m : ℕ}
    → Turns span sent begun turns n m
    → length turns ≡ n + m
length-Turns none_left = refl
length-Turns (answered thr send t client server buf buf' ww later soon fits full echoed rest) =
    omega (arith, length-Turns rest)
length-Turns (lost thr send t late later timeout rest) = omega (arith, length-Turns rest)

module _ (span : ℕ) (sent : ℕ → List ℕ) (some_bytes : (thr : ℕ) → 0 < length (sent thr))
    (small : (thr : ℕ) → length (sent thr) * 2 < buf_size) where
  abbrev expected : ℕ → List ℕ
  expected thr = data_expected (sent thr)

  abbrev at : ℕ → Instant
  at t = record { nanos = pos t }

  abbrev took : ℕ → Duration
  took n = record { nanos = pos n }

  -- The fibers after an answer, and after a lost message.
  abbrev after_answer : ℕ → ℕ → ℕ → Fibers → Fibers
  after_answer thr t n w = record w {
    starts = set_start thr (at t) w.starts;
    timings = took n ∷ w.timings;
  }

  abbrev after_loss : ℕ → ℕ → Fibers → Fibers
  after_loss thr t w = record w {
    starts = set_start thr (at t) w.starts;
    dead_packets = suc w.dead_packets;
  }

  turn_answered :
      (thr send s t : ℕ) (client server : Addr) (buf buf' : List ℕ) (ww : WriteView) (w : Fibers)
      → w.starts thr ≡ at s
      → s ≤ t
      → t < 2 ^ 63
      → length buf ≡ buf_size
      → echo (request (sent thr) client) (overwrite (sent thr) buf) ≡ ok (ww, buf')
      → fiber_turn expected thr (round_trip (pos (suc send)) ww server (at t)) w
        ≡ ok (after_answer thr t (t - s) w)
  unfolding fiber_turn
  turn_answered thr send s t client server buf buf' ww w start later fits full echoed =
      let (ww', buf'', echoed', to, accepts) =
        client_step-echo (sent thr) buf client server (view_of_fiber thr w) (pos (suc send)) (at t)
          (took (t - s)) (some_bytes thr) (small thr) full (omega arith)
          (sub_instants_later (at t) (w.starts thr) s t (ap (λ i. i.nanos) start) refl later
            fits) in
      let same : ww' ≡ ww = ground (arith, echoed, echoed') in
      let accepts' : client_step (expected thr) (view_of_fiber thr w)
            (round_trip (pos (suc send)) ww server (at t))
          ≡ ok (record {
            start = at t;
            timings = took (t - s) ∷ w.timings;
            dead_packets = w.dead_packets;
          }) =
        subst
          (λ v.
            client_step (expected thr) (view_of_fiber thr w)
              (round_trip (pos (suc send)) v server (at t))
            ≡ ok (record {
              start = at t;
              timings = took (t - s) ∷ w.timings;
              dead_packets = w.dead_packets;
            }))
          same accepts in
      rw (accepts', fiber_turn) refl

  turn_lost :
      (thr send t : ℕ) (late : ReadView) (w : Fibers)
      → late.ret ≡ esqe_timeout
      → suc w.dead_packets < 2 ^ 31
      → fiber_turn expected thr (record { send_res = pos (suc send); result = late; now = at t }) w
        ≡ ok (after_loss thr t w)
  unfolding fiber_turn client_step
  turn_lost thr send t late w timeout fits =
      let below : ltb (suc w.dead_packets) (2 ^ 31) ≡ true = ground (arith, fits) in
      rw (timeout, fiber_turn, client_step) (rw (below) (ground arith))

  set_start-begin_at :
      (thr t : ℕ) (begun : ℕ → ℕ) (starts : ℕ → Instant)
      → ((i : ℕ) → starts i ≡ at (begun i))
      → (i : ℕ) → set_start thr (at t) starts i ≡ at (begin_at thr t begun i)
  unfolding set_start
  set_start-begin_at thr t begun starts same i = elim (Bool-cases (thr == i)) [
    | inl mine ↦ rw (mine) refl
    | inr apart ↦ rw (apart) (same i)
  ]

  -- The fibers get through such turns: each answer adds a timing, which is at most `span`, and each
  -- loss is counted.
  pub run_fibers-Turns :
      (begun : ℕ → ℕ) (turns : List (ℕ × Reply)) (n m : ℕ) (w : Fibers)
      → Turns span sent begun turns n m
      → ((i : ℕ) → w.starts i ≡ at (begun i))
      → All (IsWithin 0 span) w.timings
      → w.dead_packets + m < 2 ^ 31
      → (w' : Fibers) × (run_fibers expected turns w ≡ ok w')
        × (length w'.timings ≡ length w.timings + n)
        × (w'.dead_packets ≡ w.dead_packets + m)
        × All (IsWithin 0 span) w'.timings
  unfolding run_fibers
  run_fibers-Turns begun _ _ _ w none_left same within few =
      (w, refl, omega arith, omega arith, within)
  run_fibers-Turns begun _ _ _ w
        (answered {begun = _} {turns} {n} {m} thr send t client server buf buf' ww later soon fits
          full echoed rest)
        same within few =
      let turned =
        turn_answered thr send (begun thr) t client server buf buf' ww w (same thr) later fits full
          echoed in
      let (w', ran, count, dead, all) =
        run_fibers-Turns (begin_at thr t begun) turns n m (after_answer thr t (t - begun thr) w)
          rest (set_start-begin_at thr t begun w.starts same)
          ((t - begun thr, refl, omega arith, omega arith), within) few in
      (w', rw (turned, run_fibers) ran, omega (arith, count), dead, all)
  run_fibers-Turns begun _ _ _ w
        (lost {begun = _} {turns} {n} {m} thr send t late later timeout rest) same within few =
      let turned = turn_lost thr send t late w timeout (omega (arith, few)) in
      let (w', ran, count, dead, all) =
        run_fibers-Turns (begin_at thr t begun) turns n m (after_loss thr t w) rest
          (set_start-begin_at thr t begun w.starts same) within (omega (arith, few)) in
      (w', rw (turned, run_fibers) ran, count, omega (arith, dead), all)
