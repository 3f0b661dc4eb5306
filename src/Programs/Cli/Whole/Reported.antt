-- ===== src/Programs/Cli/Whole/Reported.antt =====
-- The client of src/cli.cc against the server of src/srv2.cc, from its configuration to its report.
use hnet.Prelude.{ℕ, ◌*◌, ◌<◌, List, length}
use hnet.Prelude.Int.{pos}
use hnet.Five.Time.{Instant}
use hnet.Programs.Server.{buf_size}
use hnet.Programs.Report.{Report}
use hnet.Programs.Cli.{doubled}

module _ (span : ℕ) (configured : List ℕ) (some_bytes : 0 < length configured)
    (small : length (doubled 10 configured) * 2 < buf_size) where
  abbrev sent : List ℕ
  sent = doubled 10 configured

  abbrev at : ℕ → Instant
  at t = record { nanos = pos t }
