-- ===== src/Load/Table.antt =====
-- The weighted choice of a scenario, and the main loop, of tests/load-test.js.
use polyglot_infinity.Prelude.{ℕ, zero, suc, Option, none, some, List, [], ◌∷◌, if◌then◌else◌, ltb}
use polyglot_infinity.Load.User.{Env, M, ◌>>=◌, ◌>>◌, done, random_int_between, add_hit, sleep_ms}
use polyglot_infinity.Load.Scenario.{
  Scenario, status, aggregate, order_submit, cache_stats, history, report, rust_risk,
  python_analyze, fsharp_iv, ocaml_risk, nim_garch, julia_simulate, haskell_mc, kotlin_report,
  elixir_status, clojure_transfer, lua_stream, swift_order, erlang_status, pipeline_trigger,
  workflow_risk, workflow_option, r_stats, crystal_portfolio, scala_aggregate, ruby_score,
  dart_bond, gleam_pipeline, v_backtest, prolog_portfolio, circuit_status, run_scenario,
}

-- The first entry whose ceiling is above the roll: the loop with its `break`.
unfoldable pub choose {ℓ} : {A : Type ℓ} → List (ℕ × A) → ℕ → Option A
choose [] roll = none
choose ((ceiling, s) ∷ table) roll = if ltb roll ceiling then some s else choose table roll

-- `SCENARIOS`.
abbrev pub scenarios : List (ℕ × Scenario)
scenarios =
    (10, status)
    ∷ (20, aggregate)
    ∷ (30, order_submit)
    ∷ (36, cache_stats)
    ∷ (36, history)
    ∷ (46, report)
    ∷ (50, rust_risk)
    ∷ (54, python_analyze)
    ∷ (57, fsharp_iv)
    ∷ (60, ocaml_risk)
    ∷ (62, nim_garch)
    ∷ (64, julia_simulate)
    ∷ (66, haskell_mc)
    ∷ (68, kotlin_report)
    ∷ (70, elixir_status)
    ∷ (72, clojure_transfer)
    ∷ (73, lua_stream)
    ∷ (75, swift_order)
    ∷ (76, erlang_status)
    ∷ (76, pipeline_trigger)
    ∷ (79, workflow_risk)
    ∷ (81, workflow_option)
    ∷ (83, r_stats)
    ∷ (85, crystal_portfolio)
    ∷ (87, scala_aggregate)
    ∷ (89, ruby_score)
    ∷ (91, dart_bond)
    ∷ (93, gleam_pipeline)
    ∷ (95, v_backtest)
    ∷ (96, prolog_portfolio)
    ∷ (100, circuit_status)
    ∷ []

module _ (env : Env) (rounds : ℕ) where
  -- A chosen scenario runs and is counted.
  unfoldable pub hit : Option Scenario → M (Unit {0})
  unfolding run_scenario
  hit none = done
  hit (some s) = do run_scenario env rounds s; add_hit

  -- One iteration of the virtual user.
  unfoldable pub iterate : M (Unit {0})
  unfolding choose hit
  iterate = do
    roll ← random_int_between env 0 99
    hit (choose scenarios roll)
    pause ← random_int_between env 100 500
    sleep_ms pause

  unfoldable pub iterations : ℕ → M (Unit {0})
  unfolding iterate
  iterations zero = done
  iterations (suc k) = do iterate; iterations k
