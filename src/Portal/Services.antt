-- ===== src/Portal/Services.antt =====
-- The registry of the dashboard page: `SERVICES`.
use polyglot_infinity.Prelude.{ℕ, Option, none, some, List, [], ◌∷◌, Text, codes}

pub record Service : Type 0 where
  pub key : Text
  pub name : Text
  pub aggregate_name : Option Text
  pub lang : Text
  pub port : ℕ
  pub role : Text

abbrev entry : Text → Text → Option Text → Text → ℕ → Text → Service
entry key name aggregate_name lang port role = record {
  key = key;
  name = name;
  aggregate_name = aggregate_name;
  lang = lang;
  port = port;
  role = role;
}

-- Shut, so that loops over it are not written out in a proof.
unfoldable pub services : List Service
services =
    entry (codes "go") (codes "Go-Hub") none (codes "Go") 8080 (codes "Gateway / Orchestrator")
    ∷ entry (codes "python") (codes "Python-Brain") (some (codes "Python-Brain")) (codes "Python")
        8000 (codes "ML Engine / Redis Cache")
    ∷ entry (codes "rust") (codes "Rust-Pipeline") (some (codes "Rust-Pipeline")) (codes "Rust")
        8081 (codes "VaR Risk Pipeline")
    ∷ entry (codes "julia") (codes "Julia-Engine") (some (codes "Julia-Engine")) (codes "Julia")
        8002 (codes "Monte Carlo Engine")
    ∷ entry (codes "r") (codes "R-Stats") (some (codes "R-Stats")) (codes "R") 8003
        (codes "Statistical Analysis")
    ∷ entry (codes "fsharp") (codes "FSharp-Pricer") (some (codes "FSharp-Pricer")) (codes "F#")
        9001 (codes "Implied Volatility (NR)")
    ∷ entry (codes "ocaml") (codes "OCaml-Risk") (some (codes "OCaml-Risk")) (codes "OCaml") 8004
        (codes "Risk Engine")
    ∷ entry (codes "crystal") (codes "Crystal-GW") (some (codes "Crystal-Gateway"))
        (codes "Crystal") 9002 (codes "High-Perf Gateway")
    ∷ entry (codes "nim") (codes "Nim-Analytics") (some (codes "Nim-Analytics")) (codes "Nim") 8005
        (codes "GARCH Volatility")
    ∷ entry (codes "scala") (codes "Scala-Streamer") (some (codes "Scala-Streamer")) (codes "Scala")
        9003 (codes "Akka Streams")
    ∷ entry (codes "haskell") (codes "Haskell-Pricer") (some (codes "Haskell-Pricer"))
        (codes "Haskell") 8006 (codes "Black-Scholes Pricer")
    ∷ entry (codes "ruby") (codes "Ruby-Scorer") (some (codes "Ruby-Scorer")) (codes "Ruby") 9004
        (codes "Credit Scorer")
    ∷ entry (codes "dart") (codes "Dart-Engine") (some (codes "Dart-Engine")) (codes "Dart") 9005
        (codes "Async HTTP Engine")
    ∷ entry (codes "gleam") (codes "Gleam-Hub") (some (codes "Gleam-Hub")) (codes "Gleam") 4001
        (codes "Type-Safe Hub")
    ∷ entry (codes "v") (codes "V-Quant") (some (codes "V-Quant")) (codes "V") 4002
        (codes "Quant Finance")
    ∷ entry (codes "erlang") (codes "Erlang-Hot") (some (codes "Erlang-Hot")) (codes "Erlang") 4003
        (codes "Hot Code Reload")
    ∷ entry (codes "elixir") (codes "Elixir-Hub") (some (codes "Elixir-Hub")) (codes "Elixir") 4000
        (codes "Phoenix PubSub")
    ∷ entry (codes "clojure") (codes "Clojure-STM") (some (codes "Clojure-STM")) (codes "Clojure")
        8009 (codes "STM Ledger")
    ∷ entry (codes "java") (codes "Java-Loom") (some (codes "Java-Loom")) (codes "Java") 8010
        (codes "Virtual Threads")
    ∷ entry (codes "prolog") (codes "Prolog-Solver") (some (codes "Prolog-Solver")) (codes "Prolog")
        8011 (codes "Logic Solver")
    ∷ entry (codes "lua") (codes "Lua-Stream") (some (codes "Lua-Stream")) (codes "Lua") 8007
        (codes "Coroutine Mux")
    ∷ entry (codes "swift") (codes "Swift-Actor") (some (codes "Swift-Actor")) (codes "Swift") 8008
        (codes "Actor Concurrency")
    ∷ entry (codes "kotlin") (codes "Kotlin-Sched") (some (codes "Kotlin-Scheduler"))
        (codes "Kotlin") 9000 (codes "Coroutine Scheduler")
    ∷ entry (codes "cpp") (codes "C++-Core") none (codes "C++") 8012 (codes "Compute Library (FFI)")
    ∷ entry (codes "zig") (codes "Zig-Core") none (codes "Zig") 8013 (codes "Systems Core (FFI)")
    ∷ entry (codes "wasm") (codes "Wasm-Finance") none (codes "WASM") 8014
        (codes "WebAssembly Module")
    ∷ []
