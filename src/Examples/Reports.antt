-- ===== src/Examples/Reports.antt =====
-- Reports of three timings, and fibers of the client src/cli.cc.
use hnet.Prelude.{ℕ, ◌+◌, ◌⊎◌, ◌≡◌, get_elem?, ◌≤◌, refl, List, [], ◌∷◌, some, length, arith}
use hnet.Prelude.Int.{pos, negsuc, ◌+ℤ◌, ◌-ℤ◌}
use hnet.Prelude.Results.{ok}
use hnet.Five.Time.{Duration, sub_instants}
use hnet.Ring2.Addr.{unspec, default_addr}
use hnet.Programs.Client.{cut_warmup, Reply, data_expected}
use hnet.Programs.Client.Fiber.{total}
use hnet.Programs.Cli.{doubled, CliFiber, cli_step, cli_loop}
use hnet.Programs.Cli.Rounds.{NoneMatches, cli_loop-records}
use hnet.Programs.Report.{Report, report}
use hnet.Examples.Sorting.{sort, sort-Sorts}
use hnet.Programs.Report.Range.{report-ordered}

abbrev took : ℕ → Duration
took n = record { nanos = pos n }

abbrev recorded : List Duration
recorded = took 70 ∷ took 20 ∷ took 40 ∷ []

cut : cut_warmup recorded ≡ recorded
unfolding cut_warmup
cut = refl

report-ordered_example :
    (r : Report) × (report sort recorded ≡ some r)
    × (lo hi : ℕ) × (r.min.nanos ≡ pos lo)
    × (r.max.nanos ≡ pos hi)
    × (lo ≤ r.avg)
    × (r.avg ≤ hi)
unfolding cut_warmup
report-ordered_example =
    report-ordered sort 99 recorded sort-Sorts
      (
        (70, refl, omega arith, omega arith),
        ((20, refl, omega arith, omega arith), ((40, refl, omega arith, omega arith), tt)),
      )
      (omega arith) (omega arith)

abbrev fiber : CliFiber
fiber = record { start = record { nanos = pos 5 }; timings = [] }

-- The configured text is "b", and the echo has 2048 bytes.
abbrev echo_at : ℕ → Reply
echo_at t = record {
  send_res = pos 1_024;
  result = record {
    ret = pos 2_048;
    buf = data_expected (doubled 10 (98 ∷ []));
    addr = default_addr unspec;
  };
  now = record { nanos = pos t };
}

-- The second reply is the configured text.
abbrev plain_at : ℕ → Reply
plain_at t = record {
  send_res = pos 1_024;
  result = record { ret = pos 1; buf = 98 ∷ []; addr = default_addr unspec };
  now = record { nanos = pos t };
}

abbrev lost_at : ℕ → Reply
lost_at t = record {
  send_res = pos 1_024;
  result = record { ret = negsuc 103; buf = []; addr = default_addr unspec };
  now = record { nanos = pos t };
}

abbrev one_timing : CliFiber
one_timing = record { start = record { nanos = pos 9 }; timings = took 4 ∷ [] }

ends_early : cli_loop (98 ∷ []) fiber (lost_at 9 ∷ plain_at 12 ∷ plain_at 15 ∷ []) ≡ ok one_timing
unfolding cli_loop cli_step sub_instants ◌-ℤ◌
ends_early = refl

cli_loop-records_example :
    (k : ℕ) × (length one_timing.timings ≡ length fiber.timings + k)
    × (total one_timing.timings +ℤ pos 5 ≡ pos 0 +ℤ pos 9)
    × NoneMatches (98 ∷ []) k (lost_at 9 ∷ plain_at 12 ∷ plain_at 15 ∷ [])
    × ((k ≡ 3)
        ⊎ ((e : Reply) × (get_elem? (lost_at 9 ∷ plain_at 12 ∷ plain_at 15 ∷ []) k ≡ some e)
            × (e.result.buf ≡ 98 ∷ [])))
cli_loop-records_example =
    cli_loop-records (98 ∷ []) (lost_at 9 ∷ plain_at 12 ∷ plain_at 15 ∷ []) fiber one_timing
      ends_early
