-- ===== src/Five/Program.antt =====
-- five/five/program.h: a program is started with the path of its configuration.
use hnet.Prelude.{ℕ, List, Option, none, some, ◌==◌, if◌then◌else◌}
use hnet.Prelude.Int.{ℤ, pos}
use hnet.Prelude.Results.{Result, ok, err}
use hnet.Five.Config.{Toml, Field, config_load}
pub mod Exit

-- How the process ends: a failed WHEELS_VERIFY, or the value that `SetupAndRun` returns.
pub data End : Type 0 where
  panicked : End
  returned : ℤ → End

-- `parse_file` is that of toml++ and `run` the program's own; either may throw. `none` is an
-- undefined behaviour while the configuration is loaded.
unfoldable pub setup_and_run :
    {E C : Type 0} {t : Toml}
    → List (Field t C)
    → C
    → (List ℕ → Result E t.Table)
    → (C → Result E ℤ)
    → ℕ
    → List ℕ
    → Option End
setup_and_run fields defaults parse_file run argc path =
    if argc == 2
    then elim (parse_file path) [
      | err e ↦ some (returned (pos 1))
      | ok tbl ↦ elim (config_load fields tbl defaults) [
        | none ↦ none
        | some cfg ↦ elim (run cfg) [
          | err e ↦ some (returned (pos 1))
          | ok code ↦ some (returned code)
        ]
      ]
    ]
    else some panicked

-- The exit code of a `main` that returns what `SetupAndRun` returns, and of one that drops it, as in
-- src/srv2.cc and src/srv.cc.
unfoldable pub exit_code : End → Option ℤ
exit_code panicked = none
exit_code (returned code) = some code

unfoldable pub exit_code_dropped : End → Option ℤ
exit_code_dropped panicked = none
exit_code_dropped (returned code) = some (pos 0)
