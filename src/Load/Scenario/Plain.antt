-- ===== src/Load/Scenario/Plain.antt =====
-- The scenarios of tests/load-test.js that read one fixed URL.
use polyglot_infinity.Prelude.{◌&&◌, some, [], ◌∷◌, codes}
use polyglot_infinity.Load.User.{Env, M, ◌>>=◌, get_with, http_get}
use polyglot_infinity.Load.Scenario.Verdict.{is_200, has_field, object_test, verdict}

module _ (env : Env) where
  unfoldable pub scenario_status : M (Unit {0})
  scenario_status = do
    res ← http_get env (codes "/api/status")
    verdict res (
        (codes "status 200", is_200 res)
        ∷ (codes "has system field", is_200 res && has_field (codes "system") res)
        ∷ [])

  unfoldable pub scenario_cache_stats : M (Unit {0})
  scenario_cache_stats = do
    res ← http_get env (codes "/api/cache/stats")
    verdict res (
        (codes "cache stats 200", is_200 res)
        ∷ (codes "has cache_hits", is_200 res && has_field (codes "cache_hits") res)
        ∷ [])

  unfoldable pub scenario_history : M (Unit {0})
  scenario_history = do
    res ← http_get env (codes "/api/history")
    verdict res ((codes "history 200", is_200 res) ∷ [])

  unfoldable pub scenario_report : M (Unit {0})
  scenario_report = do
    res ← get_with env (some (codes "10s")) (codes "/api/report")
    verdict res (
        (codes "report 200", is_200 res)
        ∷ (codes "has generated_at", is_200 res && has_field (codes "generated_at") res)
        ∷ [])

  unfoldable pub scenario_rust_risk : M (Unit {0})
  scenario_rust_risk = do
    res ← http_get env (codes "/api/rust/status")
    verdict res ((codes "rust 200", is_200 res) ∷ [])

  unfoldable pub scenario_python_analyze : M (Unit {0})
  scenario_python_analyze = do
    res ← http_get env (codes "/api/python/analyze")
    verdict res ((codes "python 200", is_200 res) ∷ [])

  unfoldable pub scenario_ocaml_risk : M (Unit {0})
  scenario_ocaml_risk = do
    res ← http_get env (codes "/api/ocaml/risk")
    verdict res ((codes "ocaml risk 200", is_200 res) ∷ [])

  unfoldable pub scenario_kotlin_report : M (Unit {0})
  scenario_kotlin_report = do
    res ← http_get env (codes "/api/kotlin/reports/now")
    verdict res ((codes "kotlin report 200", is_200 res) ∷ [])

  unfoldable pub scenario_elixir_status : M (Unit {0})
  scenario_elixir_status = do
    res ← http_get env (codes "/api/elixir/status")
    verdict res ((codes "elixir status 200", is_200 res) ∷ [])

  unfoldable pub scenario_lua_stream : M (Unit {0})
  scenario_lua_stream = do
    res ← http_get env (codes "/api/lua/stream")
    verdict res ((codes "lua stream 200", is_200 res) ∷ [])

  unfoldable pub scenario_erlang_status : M (Unit {0})
  scenario_erlang_status = do
    res ← http_get env (codes "/api/erlang/status")
    verdict res ((codes "erlang status 200", is_200 res) ∷ [])

  unfoldable pub scenario_gleam_pipeline : M (Unit {0})
  scenario_gleam_pipeline = do
    res ← http_get env (codes "/api/gleam/pipeline")
    verdict res ((codes "gleam pipeline 200", is_200 res) ∷ [])

  unfoldable pub scenario_prolog_portfolio : M (Unit {0})
  scenario_prolog_portfolio = do
    res ← get_with env (some (codes "10s")) (codes "/api/prolog/portfolio")
    verdict res ((codes "prolog portfolio 200", is_200 res) ∷ [])

  unfoldable pub scenario_circuit_status : M (Unit {0})
  scenario_circuit_status = do
    res ← http_get env (codes "/api/circuit/status")
    shape ← object_test res
    verdict res ((codes "circuit status 200", is_200 res) ∷ (codes "is object", shape) ∷ [])
