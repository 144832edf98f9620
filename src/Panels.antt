-- ===== src/Panels.antt =====
-- The panels of the dashboard, portal-svelte/src/lib/components/panels.
pub mod Machine
pub mod Shape
pub mod Setting
pub mod PythonBrain
pub mod R
pub mod Julia
pub mod Workflow
pub mod FSharp
pub mod Nim
pub mod OCaml
pub mod Scala
pub mod Haskell
pub mod BsCompare
pub mod Gleam
pub mod V
pub mod LuaStream
pub mod SwiftActor
pub mod JavaLoom
pub mod LuaCache
pub mod Kotlin
pub mod RustPipeline
pub mod Dart
pub mod Crystal
pub mod ClojureStm
pub mod Erlang
pub mod Prolog
pub mod Ruby
pub mod Dashboard
pub mod DependencyMap
pub mod Elixir
pub mod SystemStatus
mod Tests
