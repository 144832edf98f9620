-- ===== src/Panels/DependencyMap.antt =====
-- The tables of portal-svelte/src/lib/components/panels/DependencyMapPanel.svelte, and what its
-- drawing makes of them.
pub mod Laws
use polyglot_infinity.Prelude.{
  ℕ, ◌*◌, Bool, true, false, not, ◌&&◌, Option, none, some, List, [], ◌∷◌, map, if◌then◌else◌, ltb,
  Text, text_eq, codes,
}

-- An entry of `NODES`; the place is in hundredths of the canvas.
pub record Node : Type 0 where
  pub id : Text
  pub label : Text
  pub port : Text
  pub color : Text
  pub x : ℕ
  pub y : ℕ

-- An entry of `EDGES`, where `source` is its `from` and `target` its `to`.
pub record Edge : Type 0 where
  pub source : Text
  pub target : Text
  pub label : Option Text
  pub style : Option Text

abbrev pub nodes : List Node
nodes =
    record {
      id = codes "svelte";
      label = codes "Svelte 5";
      port = codes ":5173";
      color = codes "#ff3e00";
      x = 50;
      y = 5;
    }
    ∷ record {
      id = codes "go";
      label = codes "Go Hub";
      port = codes ":8080";
      color = codes "#00acd7";
      x = 50;
      y = 20;
    }
    ∷ record {
      id = codes "redis";
      label = codes "Redis";
      port = codes ":6379";
      color = codes "#dc382c";
      x = 15;
      y = 35;
    }
    ∷ record {
      id = codes "pg8080";
      label = codes "PostgreSQL";
      port = codes ":5432";
      color = codes "#336791";
      x = 32;
      y = 35;
    }
    ∷ record {
      id = codes "python";
      label = codes "Python";
      port = codes ":8000";
      color = codes "#3572a5";
      x = 70;
      y = 35;
    }
    ∷ record {
      id = codes "rust";
      label = codes "Rust Axum";
      port = codes ":8081";
      color = codes "#dea584";
      x = 85;
      y = 35;
    }
    ∷ record {
      id = codes "cpp";
      label = codes "C++ FFI";
      port = codes "lib";
      color = codes "#555555";
      x = 60;
      y = 50;
    }
    ∷ record {
      id = codes "zig";
      label = codes "Zig FFI";
      port = codes "lib";
      color = codes "#f7a41d";
      x = 75;
      y = 50;
    }
    ∷ record {
      id = codes "julia";
      label = codes "Julia";
      port = codes ":8002";
      color = codes "#9558b2";
      x = 88;
      y = 50;
    }
    ∷ record {
      id = codes "pg8081";
      label = codes "PostgreSQL";
      port = codes ":5433";
      color = codes "#336791";
      x = 95;
      y = 35;
    }
    ∷ record {
      id = codes "kotlin";
      label = codes "Kotlin";
      port = codes ":9000";
      color = codes "#f18e33";
      x = 5;
      y = 55;
    }
    ∷ record {
      id = codes "elixir";
      label = codes "Elixir";
      port = codes ":4000";
      color = codes "#6e4a7e";
      x = 5;
      y = 65;
    }
    ∷ record {
      id = codes "r";
      label = codes "R";
      port = codes ":8003";
      color = codes "#276dc3";
      x = 5;
      y = 75;
    }
    ∷ record {
      id = codes "fsharp";
      label = codes "F#";
      port = codes ":9001";
      color = codes "#378bba";
      x = 18;
      y = 55;
    }
    ∷ record {
      id = codes "ocaml";
      label = codes "OCaml";
      port = codes ":8004";
      color = codes "#ee7832";
      x = 18;
      y = 65;
    }
    ∷ record {
      id = codes "crystal";
      label = codes "Crystal";
      port = codes ":9002";
      color = codes "#000000";
      x = 18;
      y = 75;
    }
    ∷ record {
      id = codes "nim";
      label = codes "Nim";
      port = codes ":8005";
      color = codes "#ffe953";
      x = 32;
      y = 55;
    }
    ∷ record {
      id = codes "scala";
      label = codes "Scala";
      port = codes ":9003";
      color = codes "#dc322f";
      x = 32;
      y = 65;
    }
    ∷ record {
      id = codes "haskell";
      label = codes "Haskell";
      port = codes ":8006";
      color = codes "#5e5086";
      x = 32;
      y = 75;
    }
    ∷ record {
      id = codes "ruby";
      label = codes "Ruby";
      port = codes ":9004";
      color = codes "#cc342d";
      x = 45;
      y = 55;
    }
    ∷ record {
      id = codes "dart";
      label = codes "Dart";
      port = codes ":9005";
      color = codes "#00b4ab";
      x = 45;
      y = 65;
    }
    ∷ record {
      id = codes "gleam";
      label = codes "Gleam";
      port = codes ":4001";
      color = codes "#ffaff3";
      x = 45;
      y = 75;
    }
    ∷ record {
      id = codes "v";
      label = codes "V";
      port = codes ":4002";
      color = codes "#5d87bf";
      x = 60;
      y = 65;
    }
    ∷ record {
      id = codes "erlang";
      label = codes "Erlang";
      port = codes ":4003";
      color = codes "#b83998";
      x = 60;
      y = 75;
    }
    ∷ record {
      id = codes "lua";
      label = codes "Lua Coroutine";
      port = codes ":8007";
      color = codes "#000080";
      x = 72;
      y = 65;
    }
    ∷ record {
      id = codes "swift";
      label = codes "Swift Actor";
      port = codes ":8008";
      color = codes "#f05138";
      x = 72;
      y = 75;
    }
    ∷ record {
      id = codes "clojure";
      label = codes "Clojure STM";
      port = codes ":8009";
      color = codes "#5881d8";
      x = 82;
      y = 65;
    }
    ∷ record {
      id = codes "java";
      label = codes "Java Loom";
      port = codes ":8010";
      color = codes "#007396";
      x = 82;
      y = 75;
    }
    ∷ record {
      id = codes "prolog";
      label = codes "Prolog";
      port = codes ":8011";
      color = codes "#8b0000";
      x = 92;
      y = 65;
    }
    ∷ record {
      id = codes "wasm";
      label = codes "WASM";
      port = codes "browser";
      color = codes "#654ff0";
      x = 92;
      y = 75;
    }
    ∷ []

abbrev pub edges : List Edge
edges =
    record {
      source = codes "svelte";
      target = codes "go";
      label = some (codes "fetch");
      style = none;
    }
    ∷ record {
      source = codes "svelte";
      target = codes "wasm";
      label = some (codes "WASM");
      style = some (codes "dashed");
    }
    ∷ record {
      source = codes "go";
      target = codes "redis";
      label = some (codes "Lua EVAL");
      style = none;
    }
    ∷ record {
      source = codes "go";
      target = codes "pg8080";
      label = some (codes "SQL");
      style = none;
    }
    ∷ record {
      source = codes "go";
      target = codes "python";
      label = some (codes "proxy");
      style = none;
    }
    ∷ record {
      source = codes "go";
      target = codes "rust";
      label = some (codes "proxy");
      style = none;
    }
    ∷ record {
      source = codes "go";
      target = codes "kotlin";
      label = some (codes "proxy");
      style = none;
    }
    ∷ record {
      source = codes "go";
      target = codes "elixir";
      label = some (codes "proxy");
      style = none;
    }
    ∷ record { source = codes "go"; target = codes "r"; label = some (codes "proxy"); style = none }
    ∷ record {
      source = codes "go";
      target = codes "fsharp";
      label = some (codes "proxy");
      style = none;
    }
    ∷ record {
      source = codes "go";
      target = codes "ocaml";
      label = some (codes "proxy");
      style = none;
    }
    ∷ record {
      source = codes "go";
      target = codes "crystal";
      label = some (codes "proxy");
      style = none;
    }
    ∷ record {
      source = codes "go";
      target = codes "nim";
      label = some (codes "proxy");
      style = none;
    }
    ∷ record {
      source = codes "go";
      target = codes "scala";
      label = some (codes "proxy");
      style = none;
    }
    ∷ record {
      source = codes "go";
      target = codes "haskell";
      label = some (codes "proxy");
      style = none;
    }
    ∷ record {
      source = codes "go";
      target = codes "ruby";
      label = some (codes "proxy");
      style = none;
    }
    ∷ record {
      source = codes "go";
      target = codes "dart";
      label = some (codes "proxy");
      style = none;
    }
    ∷ record {
      source = codes "go";
      target = codes "gleam";
      label = some (codes "proxy");
      style = none;
    }
    ∷ record { source = codes "go"; target = codes "v"; label = some (codes "proxy"); style = none }
    ∷ record {
      source = codes "go";
      target = codes "erlang";
      label = some (codes "proxy");
      style = none;
    }
    ∷ record {
      source = codes "go";
      target = codes "lua";
      label = some (codes "proxy");
      style = none;
    }
    ∷ record {
      source = codes "go";
      target = codes "swift";
      label = some (codes "proxy");
      style = none;
    }
    ∷ record {
      source = codes "go";
      target = codes "clojure";
      label = some (codes "proxy");
      style = none;
    }
    ∷ record {
      source = codes "go";
      target = codes "java";
      label = some (codes "proxy");
      style = none;
    }
    ∷ record {
      source = codes "go";
      target = codes "prolog";
      label = some (codes "proxy");
      style = none;
    }
    ∷ record {
      source = codes "python";
      target = codes "cpp";
      label = some (codes "ctypes");
      style = none;
    }
    ∷ record {
      source = codes "python";
      target = codes "zig";
      label = some (codes "ctypes");
      style = none;
    }
    ∷ record {
      source = codes "python";
      target = codes "julia";
      label = some (codes "HTTP");
      style = none;
    }
    ∷ record {
      source = codes "rust";
      target = codes "pg8081";
      label = some (codes "sqlx");
      style = none;
    }
    ∷ []

-- `W` and `H`.
abbrev pub width : ℕ
width = 900

abbrev pub height : ℕ
height = 540

-- `nx` and `ny` in hundredths of a unit of the canvas.
abbrev pub nx : Node → ℕ
nx n = n.x * width

abbrev pub ny : Node → ℕ
ny n = n.y * height

-- `nodeMap[id]`: of two nodes with one id, `Object.fromEntries` keeps the last.
unfoldable pub node_map : List Node → Text → Option Node
unfolding text_eq
node_map [] i = none
node_map (n ∷ ns) i =
    let rest = node_map ns i in
    elim rest [ some m ↦ some m | none ↦ if text_eq n.id i then some n else none ]

-- A drawn line: its ends, and whether it is dashed.
pub record Line : Type 0 where
  pub x1 : ℕ
  pub y1 : ℕ
  pub x2 : ℕ
  pub y2 : ℕ
  pub is_dashed : Bool

-- `e.style === "dashed"`.
abbrev pub dashed : Option Text → Bool
dashed none = false
dashed (some s) = text_eq s (codes "dashed")

abbrev pub line : Option Node → Option Node → Option Text → Option Line
line (some a) (some b) style =
    some (record { x1 = nx a; y1 = ny a; x2 = nx b; y2 = ny b; is_dashed = dashed style })
line _ _ style = none

-- The lines of the drawing: an edge is drawn if both of its ends are nodes.
unfoldable pub lines : List Node → List Edge → List Line
unfolding node_map
lines ns [] = []
lines ns (e ∷ es) =
    let rest = lines ns es in
    elim (line (node_map ns e.source) (node_map ns e.target) e.style) [
      | none ↦ rest
      | some l ↦ l ∷ rest
    ]
