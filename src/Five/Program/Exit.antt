-- ===== src/Five/Program/Exit.antt =====
-- What the exit code of a process says.
use hnet.Prelude.{ℕ, ◌≡◌, refl, List, some, Option-cases, inl, inr, ◌⊎◌, arith}
use hnet.Prelude.Int.{ℤ, pos}
use hnet.Prelude.Results.{Result, ok, err, Result-cases}
use hnet.Five.Config.{Toml, Field, config_load}
use hnet.Five.Program.{End, returned, setup_and_run, exit_code, exit_code_dropped}

module _ {E C : Type 0} {t : Toml} (fields : List (Field t C)) (defaults : C)
    (parse_file : List ℕ → Result E t.Table) (run : C → Result E ℤ) (path : List ℕ) where
  -- A process whose `main` returns what `SetupAndRun` returns ends with 0 only if it was given one
  -- argument, the file was parsed and loaded, and the program ran to its end and returned 0.
  pub exit_code-zero :
      (argc : ℕ) (e : End)
      → setup_and_run fields defaults parse_file run argc path ≡ some e
      → exit_code e ≡ some (pos 0)
      → (argc ≡ 2)
        × (tbl : t.Table) × (cfg : C) × (parse_file path ≡ ok tbl)
        × (config_load fields tbl defaults ≡ some cfg)
        × (run cfg ≡ ok (pos 0))
  unfolding setup_and_run exit_code
  exit_code-zero argc e ran zero = elim (Result-cases (parse_file path)) [
    | inr (x, failed) ↦ absurd (ground (arith, failed))
    | inl (tbl, parsed) ↦ elim (Option-cases (config_load fields tbl defaults)) [
      | inl undefined ↦ absurd (ground (arith, parsed, undefined))
      | inr (cfg, loaded) ↦ elim (Result-cases (run cfg)) [
        | inr (x, threw) ↦ absurd (ground (arith, parsed, loaded, threw))
        | inl (code, returns) ↦ (
          ground (arith, parsed, loaded, returns),
          tbl,
          cfg,
          parsed,
          loaded,
          ground (arith, parsed, loaded, returns),
        )
      ]
    ]
  ]

  -- A failure that is thrown, by the parser or by the program itself, is the exit code 1 where `main`
  -- returns what `SetupAndRun` returns, and the exit code 0, that of success, where it does not.
  pub exit_code_dropped-hides :
      (x : E)
      → (parse_file path ≡ err x)
        ⊎ ((tbl : t.Table) × (cfg : C) × (parse_file path ≡ ok tbl)
            × (config_load fields tbl defaults ≡ some cfg)
            × (run cfg ≡ err x))
      → (e : End) × (setup_and_run fields defaults parse_file run 2 path ≡ some e)
        × (exit_code e ≡ some (pos 1))
        × (exit_code_dropped e ≡ some (pos 0))
  unfolding setup_and_run exit_code exit_code_dropped
  exit_code_dropped-hides x (inl failed) = (returned (pos 1), rw failed refl, refl, refl)
  exit_code_dropped-hides x (inr (tbl, cfg, parsed, loaded, threw)) =
      (returned (pos 1), rw (parsed, loaded, threw) refl, refl, refl)
