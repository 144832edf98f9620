-- ===== src/Panels/LuaCache.antt =====
-- portal-svelte/src/lib/components/panels/LuaCachePanel.svelte: the statistics of the Lua cache.
use polyglot_infinity.Prelude.{ℕ, ◌≡◌, refl, Bool, true, Option, none, List, [], ◌∷◌, codes}
use polyglot_infinity.Js.Value.{Json, null}
use polyglot_infinity.Js.Async.{Async, try_catch, assign}
use polyglot_infinity.Js.Async.Laws.{try_catch-IsCalm, assign-IsCalm}
use polyglot_infinity.Panels.Machine.{Panel, NoEdit}
use polyglot_infinity.Panels.Machine.Laws.{IsDown, Starts, IsLawful}
use polyglot_infinity.Panels.Setting.{Setting, api}
use polyglot_infinity.Panels.Shape.{fetch_if_ok}
use polyglot_infinity.Panels.Shape.Laws.{fetch_if_ok-IsQuiet}

pub record LuaCacheState (Num : Type 0) : Type 0 where
  pub cache_stats : Json Num

-- The buttons.
pub data LuaCacheAction : Type 0 where
  on_fetch_cache_stats : LuaCacheAction

module _ {Num : Type 0} (js : Setting Num) where
  abbrev pub lua_cache_initial : LuaCacheState Num
  lua_cache_initial = record { cache_stats = null }

  unfoldable pub fetch_cache_stats : Async Num (LuaCacheState Num) (Unit {0})
  unfolding try_catch
  fetch_cache_stats =
      try_catch
        (fetch_if_ok (λ v s. record s { cache_stats = v }) (api js (codes "/api/cache/stats" ∷ [])))
        (λ m. assign (λ s. record s { cache_stats = null }))

  abbrev lua_cache_flag_of : LuaCacheAction → Option ℕ
  lua_cache_flag_of on_fetch_cache_stats = none

  -- The `disabled` attributes.
  abbrev pub lua_cache_enabled : LuaCacheAction → LuaCacheState Num → Bool
  lua_cache_enabled on_fetch_cache_stats s = true

  abbrev lua_cache_body : LuaCacheAction → Async Num (LuaCacheState Num) (Unit {0})
  lua_cache_body on_fetch_cache_stats = fetch_cache_stats

  abbrev pub lua_cache_flags : LuaCacheState Num → List Bool
  lua_cache_flags s = []

  abbrev pub lua_cache_panel : Panel Num
  lua_cache_panel = record {
    State = LuaCacheState Num;
    Action = LuaCacheAction;
    Edit = NoEdit;
    initial = lua_cache_initial;
    flags = lua_cache_flags;
    flag_of = lua_cache_flag_of;
    enabled = lua_cache_enabled;
    body = lua_cache_body;
    edit = λ e s. s;
  }

  lua_cache-disabled :
      (a : LuaCacheAction) (s : LuaCacheState Num)
      → lua_cache_enabled a s ≡ true
      → IsDown (lua_cache_flag_of a) (lua_cache_flags s)
  lua_cache-disabled on_fetch_cache_stats s e = tt

  lua_cache-Starts :
      (a : LuaCacheAction) → Starts lua_cache_flags (lua_cache_flag_of a) (lua_cache_body a)
  unfolding fetch_cache_stats
  lua_cache-Starts on_fetch_cache_stats =
      try_catch-IsCalm lua_cache_flags _ _
        (fetch_if_ok-IsQuiet Num lua_cache_flags _ _ (λ v s. refl))
        (λ m. assign-IsCalm Num lua_cache_flags _ (λ s. refl))

  pub lua_cache_panel-IsLawful : IsLawful lua_cache_panel
  lua_cache_panel-IsLawful = record {
    disabled = lua_cache-disabled;
    idle = tt;
    edits = λ e s. refl;
    starts = lua_cache-Starts;
  }
