-- ===== src/Panels/LuaStream.antt =====
-- portal-svelte/src/lib/components/panels/LuaStreamPanel.svelte: the coroutine streams of the Lua service.
use polyglot_infinity.Prelude.{
  ℕ, ◌≡◌, refl, Bool, true, false, not, Option, some, List, [], ◌∷◌, arith, codes,
}
use polyglot_infinity.Js.Value.{Json, null, obj}
use polyglot_infinity.Js.Completion.{Completion, ok, throw}
use polyglot_infinity.Js.Spread.{merge, spread}
use polyglot_infinity.Js.Async.{Async}
use polyglot_infinity.Panels.Machine.{Panel, NoEdit}
use polyglot_infinity.Panels.Machine.Laws.{IsDown, Starts, IsLawful}
use polyglot_infinity.Panels.Setting.{Setting, api}
use polyglot_infinity.Panels.Shape.{error_value, with_loading, fetch_jsons_into}
use polyglot_infinity.Panels.Shape.Laws.{with_loading-Starts, fetch_jsons_into-IsQuiet}

module _ {Num : Type 0} where
  -- `{ ...status, ...stream }`.
  unfoldable pub lua_combine : List (Json Num) → Completion (Json Num)
  unfolding merge spread
  lua_combine (status ∷ stream ∷ []) = ok (obj (merge (spread status) (spread stream)))
  lua_combine _ = throw []

pub record LuaStreamState (Num : Type 0) : Type 0 where
  pub lua_data : Json Num
  pub lua_loading : Bool

-- The buttons.
pub data LuaStreamAction : Type 0 where
  on_run_lua : LuaStreamAction

module _ {Num : Type 0} (js : Setting Num) where
  abbrev pub lua_stream_initial : LuaStreamState Num
  lua_stream_initial = record { lua_data = null; lua_loading = false }

  unfoldable pub run_lua : Async Num (LuaStreamState Num) (Unit {0})
  run_lua =
      with_loading (λ b s. record s { lua_loading = b }) (λ s. record s { lua_data = null })
        (fetch_jsons_into (λ v s. record s { lua_data = v })
          (api js (codes "/api/lua/status" ∷ [])
            ∷ api js (codes "/api/lua/stream?feeds=6&steps=300" ∷ [])
            ∷ [])
          lua_combine)
        (λ s. record s { lua_data = error_value (codes "Lua 서버 접속 불가 (:8007)") })

  abbrev lua_stream_flag_of : LuaStreamAction → Option ℕ
  lua_stream_flag_of on_run_lua = some 0

  -- The `disabled` attributes.
  abbrev pub lua_stream_enabled : LuaStreamAction → LuaStreamState Num → Bool
  lua_stream_enabled on_run_lua s = not s.lua_loading

  abbrev lua_stream_body : LuaStreamAction → Async Num (LuaStreamState Num) (Unit {0})
  lua_stream_body on_run_lua = run_lua

  abbrev pub lua_stream_flags : LuaStreamState Num → List Bool
  lua_stream_flags s = s.lua_loading ∷ []

  abbrev pub lua_stream_panel : Panel Num
  lua_stream_panel = record {
    State = LuaStreamState Num;
    Action = LuaStreamAction;
    Edit = NoEdit;
    initial = lua_stream_initial;
    flags = lua_stream_flags;
    flag_of = lua_stream_flag_of;
    enabled = lua_stream_enabled;
    body = lua_stream_body;
    edit = λ e s. s;
  }

  lua_stream-disabled :
      (a : LuaStreamAction) (s : LuaStreamState Num)
      → lua_stream_enabled a s ≡ true
      → IsDown (lua_stream_flag_of a) (lua_stream_flags s)
  lua_stream-disabled on_run_lua s e = (ground arith, omega arith)

  lua_stream-Starts :
      (a : LuaStreamAction) → Starts lua_stream_flags (lua_stream_flag_of a) (lua_stream_body a)
  unfolding run_lua
  lua_stream-Starts on_run_lua =
      with_loading-Starts Num lua_stream_flags 0 _ _ _ _ (λ b s. refl) (λ s. refl)
        (fetch_jsons_into-IsQuiet Num lua_stream_flags _ _ _ (λ v s. refl)) (λ s. refl)

  pub lua_stream_panel-IsLawful : IsLawful lua_stream_panel
  lua_stream_panel-IsLawful = record {
    disabled = lua_stream-disabled;
    idle = (refl, tt);
    edits = λ e s. refl;
    starts = lua_stream-Starts;
  }
