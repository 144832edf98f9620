-- ===== src/Load/Scenario.antt =====
-- The scenarios of tests/load-test.js, by name, and the function that each name stands for.
pub mod Verdict
pub mod Plain
pub mod Queries
pub mod Writes
use polyglot_infinity.Prelude.{ℕ}
use polyglot_infinity.Load.User.{Env, M}
use polyglot_infinity.Load.Scenario.Plain.{
  scenario_status, scenario_cache_stats, scenario_history, scenario_report, scenario_rust_risk,
  scenario_python_analyze, scenario_ocaml_risk, scenario_kotlin_report, scenario_elixir_status,
  scenario_lua_stream, scenario_erlang_status, scenario_gleam_pipeline, scenario_prolog_portfolio,
  scenario_circuit_status,
}
use polyglot_infinity.Load.Scenario.Queries.{
  scenario_aggregate, scenario_fsharp_iv, scenario_nim_garch, scenario_julia_simulate,
  scenario_haskell_mc, scenario_workflow_risk, scenario_workflow_option, scenario_r_stats,
  scenario_crystal_portfolio, scenario_scala_aggregate, scenario_ruby_score, scenario_dart_bond,
  scenario_v_backtest,
}
use polyglot_infinity.Load.Scenario.Writes.{
  scenario_order_submit, scenario_clojure_transfer, scenario_swift_order, scenario_pipeline_trigger,
}

pub data Scenario : Type 0 where
  status aggregate order_submit cache_stats history report rust_risk python_analyze fsharp_iv
        ocaml_risk nim_garch julia_simulate haskell_mc kotlin_report elixir_status clojure_transfer
        lua_stream swift_order erlang_status pipeline_trigger workflow_risk workflow_option r_stats
        crystal_portfolio scala_aggregate ruby_score dart_bond gleam_pipeline v_backtest
        prolog_portfolio circuit_status :
      Scenario

-- `rounds` bounds the redraws of the transfer scenario.
module _ (env : Env) (rounds : ℕ) where
  unfoldable pub run_scenario : Scenario → M (Unit {0})
  unfolding scenario_status scenario_cache_stats scenario_history scenario_report scenario_rust_risk
      scenario_python_analyze scenario_ocaml_risk scenario_kotlin_report scenario_elixir_status
      scenario_lua_stream scenario_erlang_status scenario_gleam_pipeline scenario_prolog_portfolio
      scenario_circuit_status scenario_aggregate scenario_fsharp_iv scenario_nim_garch
      scenario_julia_simulate scenario_haskell_mc scenario_workflow_risk scenario_workflow_option
      scenario_r_stats scenario_crystal_portfolio scenario_scala_aggregate scenario_ruby_score
      scenario_dart_bond scenario_v_backtest scenario_order_submit scenario_clojure_transfer
      scenario_swift_order scenario_pipeline_trigger
  run_scenario status = scenario_status env
  run_scenario aggregate = scenario_aggregate env
  run_scenario order_submit = scenario_order_submit env
  run_scenario cache_stats = scenario_cache_stats env
  run_scenario history = scenario_history env
  run_scenario report = scenario_report env
  run_scenario rust_risk = scenario_rust_risk env
  run_scenario python_analyze = scenario_python_analyze env
  run_scenario fsharp_iv = scenario_fsharp_iv env
  run_scenario ocaml_risk = scenario_ocaml_risk env
  run_scenario nim_garch = scenario_nim_garch env
  run_scenario julia_simulate = scenario_julia_simulate env
  run_scenario haskell_mc = scenario_haskell_mc env
  run_scenario kotlin_report = scenario_kotlin_report env
  run_scenario elixir_status = scenario_elixir_status env
  run_scenario clojure_transfer = scenario_clojure_transfer env rounds
  run_scenario lua_stream = scenario_lua_stream env
  run_scenario swift_order = scenario_swift_order env
  run_scenario erlang_status = scenario_erlang_status env
  run_scenario pipeline_trigger = scenario_pipeline_trigger env
  run_scenario workflow_risk = scenario_workflow_risk env
  run_scenario workflow_option = scenario_workflow_option env
  run_scenario r_stats = scenario_r_stats env
  run_scenario crystal_portfolio = scenario_crystal_portfolio env
  run_scenario scala_aggregate = scenario_scala_aggregate env
  run_scenario ruby_score = scenario_ruby_score env
  run_scenario dart_bond = scenario_dart_bond env
  run_scenario gleam_pipeline = scenario_gleam_pipeline env
  run_scenario v_backtest = scenario_v_backtest env
  run_scenario prolog_portfolio = scenario_prolog_portfolio env
  run_scenario circuit_status = scenario_circuit_status env
