-- ===== src/Programs/Cli/Whole/Echoed.antt =====
-- The fibers of src/cli.cc against the server of src/srv2.cc.
use hnet.Prelude.{
  ℕ, suc, ◌+◌, ◌-◌, ◌*◌, ◌^◌, ◌<◌, ◌≤◌, ◌≡◌, refl, ap, ◌∙◌, Bool, false, List, [], ◌∷◌, length,
  ◌==◌, Bool-cases, inl, inr, arith,
}
use hnet.Prelude.Int.{pos}
use hnet.Prelude.Results.{ok}
use hnet.Prelude.Memory.{overwrite, take-overwrite, length-overwrite}
use hnet.Five.Time.{Instant}
use hnet.Five.Time.Arithmetic.{sub_instants_later}
use hnet.Ring2.Addr.{Addr}
use hnet.Ring2.Messages.{WriteView}
use hnet.Programs.Server.{echo, buf_size}
use hnet.Programs.Server.Echo.{echo-ok}
use hnet.Programs.EndToEnd.{request, round_trip}
use hnet.Programs.Client.{Reply, data_expected}
use hnet.Programs.Client.Fibers.{set_start}
use hnet.Programs.Client.Whole.Turns.{begin_at}
use hnet.Programs.Report.Range.{All, IsWithin}
use hnet.Programs.Cli.{doubled}
use hnet.Programs.Cli.Rounds.{echo_step}
use hnet.Programs.Cli.Whole.{CliFibers, set_returned, cli_turn, run_cli_fibers}

-- Turns in which the server answers every message. A round takes at most `span`, and no fiber's
-- clock goes back.
pub data CliTurns (span : ℕ) (sent : List ℕ) : (ℕ → ℕ) → List (ℕ × Reply) → Type 0 where
  none_left : {begun : ℕ → ℕ} → CliTurns span sent begun []
  answered :
      {begun : ℕ → ℕ} {turns : List (ℕ × Reply)} (thr send t : ℕ) (client server : Addr)
      (buf buf' : List ℕ) (ww : WriteView)
      → begun thr ≤ t
      → t ≤ begun thr + span
      → t < 2 ^ 63
      → length buf ≡ buf_size
      → echo (request sent client) (overwrite sent buf) ≡ ok (ww, buf')
      → CliTurns span sent (begin_at thr t begun) turns
      → CliTurns span sent begun
          ((thr, round_trip (pos (suc send)) ww server (record { nanos = pos t })) ∷ turns)

module _ (span : ℕ) (configured : List ℕ) (some_bytes : 0 < length configured)
    (small : length (doubled 10 configured) * 2 < buf_size) where
  abbrev sent : List ℕ
  sent = doubled 10 configured

  abbrev at : ℕ → Instant
  at t = record { nanos = pos t }

  abbrev after_answer : ℕ → ℕ → ℕ → CliFibers → CliFibers
  after_answer thr t n w = record {
    starts = set_start thr (at t) w.starts;
    returned = set_returned thr false w.returned;
    timings = record { nanos = pos n } ∷ w.timings;
  }

  turn_answered :
      (thr send s t : ℕ) (client server : Addr) (buf buf' : List ℕ) (ww : WriteView) (w : CliFibers)
      → w.returned thr ≡ false
      → w.starts thr ≡ at s
      → s ≤ t
      → t < 2 ^ 63
      → length buf ≡ buf_size
      → echo (request sent client) (overwrite sent buf) ≡ ok (ww, buf')
      → cli_turn configured thr (round_trip (pos (suc send)) ww server (at t)) w
        ≡ ok (after_answer thr t (t - s) w)
  unfolding cli_turn
  turn_answered thr send s t client server buf buf' ww w runs start later fits full echoed =
      let echoed' =
        echo-ok (request sent client) (overwrite sent buf) (length-overwrite sent buf ∙ full)
          (take-overwrite sent buf (omega (arith, small))) small in
      let twice : ww.buf ≡ data_expected sent = ground (arith, echoed, echoed') in
      let stepped =
        echo_step configured (record { start = w.starts thr; timings = w.timings })
          (round_trip (pos (suc send)) ww server (at t)) (record { nanos = pos (t - s) }) send
          some_bytes refl twice
          (sub_instants_later (at t) (w.starts thr) s t (ap (λ i. i.nanos) start) refl later
            fits) in
      rw (runs, stepped, cli_turn) refl

  starts_kept :
      (thr t : ℕ) (begun : ℕ → ℕ) (starts : ℕ → Instant)
      → ((i : ℕ) → starts i ≡ at (begun i))
      → (i : ℕ) → set_start thr (at t) starts i ≡ at (begin_at thr t begun i)
  unfolding set_start
  starts_kept thr t begun starts same i = elim (Bool-cases (thr == i)) [
    | inl mine ↦ rw (mine) refl
    | inr apart ↦ rw (apart) (same i)
  ]

  still_running :
      (thr i : ℕ) (returned : ℕ → Bool)
      → returned i ≡ false
      → set_returned thr false returned i ≡ false
  unfolding set_returned
  still_running thr i returned runs = elim (Bool-cases (thr == i)) [
    | inl mine ↦ rw (mine) refl
    | inr apart ↦ rw (apart) runs
  ]

  -- The fibers get through such turns, and each adds a timing, which is at most `span`.
  pub run_cli_fibers-CliTurns :
      (begun : ℕ → ℕ) (turns : List (ℕ × Reply)) (w : CliFibers)
      → CliTurns span sent begun turns
      → ((i : ℕ) → w.starts i ≡ at (begun i))
      → ((i : ℕ) → w.returned i ≡ false)
      → All (IsWithin 0 span) w.timings
      → (w' : CliFibers) × (run_cli_fibers configured turns w ≡ ok w')
        × (length w'.timings ≡ length w.timings + length turns)
        × All (IsWithin 0 span) w'.timings
  unfolding run_cli_fibers
  run_cli_fibers-CliTurns begun _ w none_left same runs within = (w, refl, omega arith, within)
  run_cli_fibers-CliTurns begun _ w
        (answered {begun = _} {turns} thr send t client server buf buf' ww later soon fits full
          echoed rest)
        same runs within =
      let turned =
        turn_answered thr send (begun thr) t client server buf buf' ww w (runs thr) (same thr) later
          fits full echoed in
      let (w', ran, count, all) =
        run_cli_fibers-CliTurns (begin_at thr t begun) turns (after_answer thr t (t - begun thr) w)
          rest (starts_kept thr t begun w.starts same)
          (λ i. still_running thr i w.returned (runs i))
          ((t - begun thr, refl, omega arith, omega arith), within) in
      (w', rw (turned, run_cli_fibers) ran, omega (arith, count), all)
