-- ===== src/Programs/Client/Whole/Answered.antt =====
-- The client against the server, from its configuration to its report.
use mathlib.Core.List.{reverse}
use hnet.Ring2.Errors.{overflow}
use hnet.Ring2.Sock.{Socket, Sockets}
use hnet.Programs.Joins.Complete.{in_turns-IsSchedule, after_join-IsSchedule, reserve-fits}
use hnet.Prelude.{
  false, ℕ, suc, ◌+◌, ◌*◌, ◌/◌, ◌^◌, ◌<◌, ◌≤◌, ◌≡◌, refl, sym, ap, ◌∙◌, List, [], ◌∷◌, ◌++◌, none,
  some, length, length-append, inl, inr, arith,
}
use hnet.Prelude.Int.{pos, pos_part}
use hnet.Prelude.Results.{ok}
use hnet.Prelude.Options.{◌>>=◌}
use hnet.Five.Time.{Instant, Duration}
use hnet.Ring2.Addr.{Inet, from_parts}
use hnet.Programs.Settings.{UdpClientConfig}
use hnet.Programs.Server.{buf_size}
use hnet.Programs.Client.{Reply, cut_warmup}
use hnet.Programs.Client.Padding.{copies, pad_lem}
use hnet.Programs.Client.Whole.Schedule.{IsSchedule, length-IsSchedule}
use hnet.Programs.Client.Whole.{
  no_run, too_long, threw, open_sockets, run_rounds, sum_up, main_fiber, rounds_of, padded,
  run_client,
}
use hnet.Programs.Client.Fibers.{Fibers, expected_of, run_fibers}
use hnet.Programs.Client.Whole.Turns.{length-Turns, Turns, run_fibers-Turns}
use hnet.Programs.Report.Range.{All, IsWithin, Sorts, report-empty}

-- The text that the fibers send, each with its number after it.
abbrev pub message : UdpClientConfig → List ℕ
message config = elim (padded config) [ none ↦ [] | some text ↦ text ]

padded-copies :
    (config : UdpClientConfig) (data_len : ℕ)
    → config.data_len ≡ pos data_len
    → 0 < length config.data_to_send
    → (k : ℕ) × (padded config ≡ some (config.data_to_send ++ copies k config.data_to_send))
      × (length (config.data_to_send ++ copies k config.data_to_send)
          ≤ data_len + length config.data_to_send)
unfolding padded
padded-copies config data_len len some_bytes =
    let (k, made, long, few) =
      pad_lem (suc data_len) config.data_to_send config.data_to_send data_len some_bytes
        (omega arith) (omega arith) in
    (
      k,
      rw (len, padded) made,
      elim few [
        | inl once ↦ omega (
          arith,
          ap (λ (j : ℕ). length (copies j config.data_to_send)) once,
          length-append config.data_to_send (copies k config.data_to_send),
        )
        | inr short ↦ omega (arith, short)
      ],
    )

pub padded-message :
    (config : UdpClientConfig) (data_len : ℕ)
    → config.data_len ≡ pos data_len
    → 0 < length config.data_to_send
    → (padded config ≡ some (message config))
      × (length config.data_to_send ≤ length (message config))
      × (length (message config) ≤ data_len + length config.data_to_send)
padded-message config data_len len some_bytes =
    let (k, made, short) = padded-copies config data_len len some_bytes in
    let same : message config ≡ config.data_to_send ++ copies k config.data_to_send =
      ap (λ o. elim o [ none ↦ [] | some text ↦ text ]) made in
    (
      made ∙ ap some (sym same),
      omega
          (arith, ap length same, length-append config.data_to_send (copies k config.data_to_send)),
      omega (arith, ap length same),
    )

length-nil : (ds : List Duration) → length ds ≡ 0 → ds ≡ []
length-nil [] e = refl
length-nil (d ∷ ds) e = absurd (omega (arith, e))

module _ (os : Sockets) (i : Inet) (decimal : ℕ → List ℕ) (sort : List Duration → List Duration)
    (config : UdpClientConfig) (count fibers : ℕ) (starts : ℕ → Instant) (turns : List (ℕ × Reply))
    (t : os.S) (cnt : config.count ≡ pos count) (fibs : config.fibers ≡ pos fibers)
    (few : fibers < 2 ^ 31) (short : count / fibers < 2 ^ 31) (product : count * fibers < 2 ^ 60)
    (schedule : IsSchedule fibers (count / fibers) turns) where
  run_rounds-parts :
      (text : List ℕ) (w : Fibers)
      → run_fibers
          (expected_of decimal text)
          turns
          (record { starts = starts; timings = []; dead_packets = 0 })
        ≡ ok w
      → run_rounds i decimal sort config starts turns text ≡ (do s ← sum_up sort w; some (ok s))
  unfolding run_rounds rounds_of
  run_rounds-parts text w ran =
      let schedule' : IsSchedule (pos_part config.fibers) (rounds_of config) turns =
        rw (fibs, cnt) schedule in
      in_turns-IsSchedule no_run (threw overflow) (pos_part config.fibers) (rounds_of config) turns
        _ schedule' (rw (fibs) few) (rw (cnt, fibs) short)
      ∙ rw (ran, run_rounds)
          (after_join-IsSchedule no_run (threw overflow) (pos_part config.fibers) (rounds_of config)
            turns _ (λ thr. false) schedule')

  main_fiber_parts :
      (text bytes : List ℕ) (socks : List Socket) (w : Fibers)
      → i.pton4 config.server.host ≡ some bytes
      → (open_sockets os config fibers 0 t).0 ≡ ok socks
      → run_fibers
          (expected_of decimal text)
          turns
          (record { starts = starts; timings = []; dead_packets = 0 })
        ≡ ok w
      → main_fiber i decimal sort os config starts turns text t
        ≡ (do s ← sum_up sort w; some (ok s))
  unfolding main_fiber from_parts
  main_fiber_parts text bytes socks w host sockets ran =
      let opened : (open_sockets os config (pos_part config.fibers) 0 t).0 ≡ ok socks =
        ap (λ z. (open_sockets os config (pos_part z) 0 t).0) fibs ∙ sockets in
      rw (host, main_fiber)
        (reserve-fits no_run (threw overflow) too_long count fibers config.count config.fibers _ cnt
            fibs product
          ∙ rw (opened) (run_rounds-parts text w ran))

  -- The parts of a run that gets to its report.
  run_client-parts :
      (text bytes : List ℕ) (socks : List Socket) (w : Fibers)
      → padded config ≡ some text
      → i.pton4 config.server.host ≡ some bytes
      → (open_sockets os config fibers 0 t).0 ≡ ok socks
      → run_fibers
          (expected_of decimal text)
          turns
          (record { starts = starts; timings = []; dead_packets = 0 })
        ≡ ok w
      → run_client i decimal sort os config starts turns t ≡ (do s ← sum_up sort w; some (ok s))
  unfolding run_client
  run_client-parts text bytes socks w padding host sockets ran =
      ap (λ o. o >>= (λ text_sent. main_fiber i decimal sort os config starts turns text_sent t))
        padding
      ∙ main_fiber_parts text bytes socks w host sockets ran

module _ (os : Sockets) (i : Inet) (decimal : ℕ → List ℕ) (sort : List Duration → List Duration)
    (span : ℕ) (config : UdpClientConfig) (data_len fibers count : ℕ) (begun : ℕ → ℕ)
    (turns : List (ℕ × Reply)) (answers losses : ℕ) (bytes : List ℕ) (socks : List Socket)
    (t : os.S) (laws : Sorts sort) (len : config.data_len ≡ pos data_len)
    (some_bytes : 0 < length config.data_to_send)
    (small : (thr : ℕ)
      → (data_len + length config.data_to_send + length (decimal thr)) * 2 < buf_size)
    (host : i.pton4 config.server.host ≡ some bytes) (fibs : config.fibers ≡ pos fibers)
    (cnt : config.count ≡ pos count) (few : fibers < 2 ^ 31) (product : count * fibers < 2 ^ 60)
    (sockets : (open_sockets os config fibers 0 t).0 ≡ ok socks)
    (schedule : IsSchedule fibers (count / fibers) turns)
    (fits : fibers * (count / fibers) < 2 ^ 31) (short : count / fibers < 2 ^ 31) where
  abbrev sent : ℕ → List ℕ
  sent thr = message config ++ decimal thr

  abbrev at : ℕ → Instant
  at thr = record { nanos = pos (begun thr) }

  turned : length turns ≡ fibers * (count / fibers)
  turned = length-IsSchedule fibers (count / fibers) turns schedule

  -- The fibers of the run get through their turns.
  fibers_done :
      Turns span sent begun turns answers losses
      → (w : Fibers) × (run_client i decimal sort os config at turns t
          ≡ (do s ← sum_up sort w; some (ok s)))
        × (length w.timings ≡ answers)
        × (w.dead_packets ≡ losses)
        × All (IsWithin 0 span) w.timings
  fibers_done network =
      let (padding, least, most) = padded-message config data_len len some_bytes in
      let (w, ran, recorded, dead, within) =
        run_fibers-Turns span sent
          (λ thr. omega (arith, length-append (message config) (decimal thr)))
          (λ thr. omega (arith, small thr, length-append (message config) (decimal thr))) begun
          turns answers losses (record { starts = at; timings = []; dead_packets = 0 }) network
          (λ thr. refl) tt (omega (arith, turned, fits, length-Turns network)) in
      (
        w,
        run_client-parts os i decimal sort config count fibers at turns t cnt fibs few short product
            schedule (message config) bytes socks w padding host sockets ran,
        omega (arith, recorded),
        omega (arith, dead),
        within,
      )

  -- When every message is lost there is no report: the average is a division by 0.
  pub run_client-silence :
      Turns span sent begun turns answers losses
      → answers ≡ 0
      → run_client i decimal sort os config at turns t ≡ none
  unfolding cut_warmup sum_up
  run_client-silence network no_answers =
      let (w, ran, recorded, dead, within) = fibers_done network in
      let empty : cut_warmup (reverse w.timings) ≡ [] =
        ap (λ ds. cut_warmup (reverse ds)) (length-nil w.timings (recorded ∙ no_answers)) in
      ran ∙ rw (report-empty sort (reverse w.timings) laws empty) refl
