-- ===== src/Panels/Dashboard.antt =====
-- The panels under portal-svelte/src/lib/components/panels that load on a button, and their flags.
use polyglot_infinity.Prelude.{ℕ, ◌≡◌, false, List, [], ◌++◌}
use polyglot_infinity.Panels.Machine.{Panel, PanelEvent, Answer, flag_at, new_world, run}
use polyglot_infinity.Panels.Machine.Laws.{IsLawful}
use polyglot_infinity.Panels.Machine.Busy.{one_if}
use polyglot_infinity.Panels.Machine.Invariant.{running, run-running}
use polyglot_infinity.Panels.Machine.Settled.{answers, flags-settle}
use polyglot_infinity.Panels.Setting.{Setting}
use polyglot_infinity.Panels.PythonBrain.{python_brain_panel, python_brain_panel-IsLawful}
use polyglot_infinity.Panels.R.{r_panel, r_panel-IsLawful}
use polyglot_infinity.Panels.Julia.{julia_panel, julia_panel-IsLawful}
use polyglot_infinity.Panels.Workflow.{workflow_panel, workflow_panel-IsLawful}
use polyglot_infinity.Panels.FSharp.{fsharp_panel, fsharp_panel-IsLawful}
use polyglot_infinity.Panels.Nim.{nim_panel, nim_panel-IsLawful}
use polyglot_infinity.Panels.OCaml.{ocaml_panel, ocaml_panel-IsLawful}
use polyglot_infinity.Panels.Scala.{scala_panel, scala_panel-IsLawful}
use polyglot_infinity.Panels.Haskell.{haskell_panel, haskell_panel-IsLawful}
use polyglot_infinity.Panels.BsCompare.{bs_compare_panel, bs_compare_panel-IsLawful}
use polyglot_infinity.Panels.Gleam.{gleam_panel, gleam_panel-IsLawful}
use polyglot_infinity.Panels.V.{v_panel, v_panel-IsLawful}
use polyglot_infinity.Panels.LuaStream.{lua_stream_panel, lua_stream_panel-IsLawful}
use polyglot_infinity.Panels.SwiftActor.{swift_actor_panel, swift_actor_panel-IsLawful}
use polyglot_infinity.Panels.JavaLoom.{java_loom_panel, java_loom_panel-IsLawful}
use polyglot_infinity.Panels.LuaCache.{lua_cache_panel, lua_cache_panel-IsLawful}
use polyglot_infinity.Panels.Kotlin.{kotlin_panel, kotlin_panel-IsLawful}
use polyglot_infinity.Panels.RustPipeline.{rust_pipeline_panel, rust_pipeline_panel-IsLawful}
use polyglot_infinity.Panels.Dart.{dart_panel, dart_panel-IsLawful}
use polyglot_infinity.Panels.Crystal.{crystal_panel, crystal_panel-IsLawful}
use polyglot_infinity.Panels.ClojureStm.{clojure_panel, clojure_panel-IsLawful}
use polyglot_infinity.Panels.Erlang.{erlang_panel, erlang_panel-IsLawful}
use polyglot_infinity.Panels.Prolog.{prolog_panel, prolog_panel-IsLawful}

-- The panels of this kind, but for RubyPanel.svelte.
pub data DashboardPanel : Type 0 where
  python_brain r julia workflow fsharp nim ocaml scala haskell bs_compare gleam v lua_stream
        swift_actor java_loom lua_cache kotlin rust_pipeline dart crystal clojure erlang prolog :
      DashboardPanel

module _ {Num : Type 0} (js : Setting Num) where
  abbrev pub panel_of : DashboardPanel → Panel Num
  panel_of python_brain = python_brain_panel js
  panel_of r = r_panel js
  panel_of julia = julia_panel js
  panel_of workflow = workflow_panel js
  panel_of fsharp = fsharp_panel js
  panel_of nim = nim_panel js
  panel_of ocaml = ocaml_panel js
  panel_of scala = scala_panel js
  panel_of haskell = haskell_panel js
  panel_of bs_compare = bs_compare_panel js
  panel_of gleam = gleam_panel js
  panel_of v = v_panel js
  panel_of lua_stream = lua_stream_panel js
  panel_of swift_actor = swift_actor_panel js
  panel_of java_loom = java_loom_panel js
  panel_of lua_cache = lua_cache_panel js
  panel_of kotlin = kotlin_panel js
  panel_of rust_pipeline = rust_pipeline_panel js
  panel_of dart = dart_panel js
  panel_of crystal = crystal_panel js
  panel_of clojure = clojure_panel js
  panel_of erlang = erlang_panel js
  panel_of prolog = prolog_panel js

  panel_of-IsLawful : (d : DashboardPanel) → IsLawful (panel_of d)
  panel_of-IsLawful python_brain = python_brain_panel-IsLawful js
  panel_of-IsLawful r = r_panel-IsLawful js
  panel_of-IsLawful julia = julia_panel-IsLawful js
  panel_of-IsLawful workflow = workflow_panel-IsLawful js
  panel_of-IsLawful fsharp = fsharp_panel-IsLawful js
  panel_of-IsLawful nim = nim_panel-IsLawful js
  panel_of-IsLawful ocaml = ocaml_panel-IsLawful js
  panel_of-IsLawful scala = scala_panel-IsLawful js
  panel_of-IsLawful haskell = haskell_panel-IsLawful js
  panel_of-IsLawful bs_compare = bs_compare_panel-IsLawful js
  panel_of-IsLawful gleam = gleam_panel-IsLawful js
  panel_of-IsLawful v = v_panel-IsLawful js
  panel_of-IsLawful lua_stream = lua_stream_panel-IsLawful js
  panel_of-IsLawful swift_actor = swift_actor_panel-IsLawful js
  panel_of-IsLawful java_loom = java_loom_panel-IsLawful js
  panel_of-IsLawful lua_cache = lua_cache_panel-IsLawful js
  panel_of-IsLawful kotlin = kotlin_panel-IsLawful js
  panel_of-IsLawful rust_pipeline = rust_pipeline_panel-IsLawful js
  panel_of-IsLawful dart = dart_panel-IsLawful js
  panel_of-IsLawful crystal = crystal_panel-IsLawful js
  panel_of-IsLawful clojure = clojure_panel-IsLawful js
  panel_of-IsLawful erlang = erlang_panel-IsLawful js
  panel_of-IsLawful prolog = prolog_panel-IsLawful js

  -- In each of 23 panels, after any clicks, inputs and answers of the network, in any order: each
  -- loading flag is up exactly if a function with that flag runs, no two with the same flag run,
  -- and no exception was left uncaught.
  pub panel_of-running :
      (d : DashboardPanel) (events : List (PanelEvent Num (panel_of d))) (f : ℕ)
      → let p = panel_of d in
        let w = run p (new_world p) events in
        (running p f w ≡ one_if (flag_at f (p.flags w.state))) × (w.uncaught ≡ [])
  panel_of-running d = run-running (panel_of d) (panel_of-IsLawful d)

  -- In each of the 23 panels, after any clicks, inputs and answers: if from then on the function
  -- that waits in the first place is answered each time, by whatever rule, then after a number of
  -- answers no function waits any more and every loading flag is down.
  pub panel_of-settles :
      (d : DashboardPanel) (a : Answer Num) (events : List (PanelEvent Num (panel_of d)))
      → (n : ℕ) × (let p = panel_of d in
          let w = run p (new_world p) (events ++ answers p a n) in
          (w.tasks ≡ []) × ((f : ℕ) → flag_at f (p.flags w.state) ≡ false))
  panel_of-settles d a = flags-settle (panel_of d) a (panel_of-IsLawful d)
