-- ===== src/Panels/Nim.antt =====
-- portal-svelte/src/lib/components/panels/NimPanel.svelte: time series, volatility and forecasts of the Nim engine.
use polyglot_infinity.Prelude.{
  ℕ, ◌≡◌, refl, Bool, true, false, not, Option, some, List, [], ◌∷◌, arith, codes,
}
use polyglot_infinity.Js.Value.{Json, null, obj, read}
use polyglot_infinity.Js.Completion.{Completion, ok, throw, ◌>>=◌}
use polyglot_infinity.Js.Spread.{set_field, put_field, spread, read_index}
use polyglot_infinity.Js.Async.{Async}
use polyglot_infinity.Panels.Machine.{Panel, NoEdit}
use polyglot_infinity.Panels.Machine.Laws.{IsDown, Starts, IsLawful}
use polyglot_infinity.Panels.Setting.{Setting, api}
use polyglot_infinity.Panels.Shape.{error_value, with_loading, fetch_or, fetch_all_or}
use polyglot_infinity.Panels.Shape.Laws.{
  with_loading-Starts, fetch_or-IsQuiet, fetch_all_or-IsQuiet,
}

module _ {Num : Type 0} where
  -- What `runNim` makes of the three bodies.
  unfoldable pub nim_combine : List (Json Num) → Completion (Json Num)
  unfolding put_field set_field spread read read_index
  nim_combine (ts ∷ mom ∷ ind ∷ []) = do
    v0 ← read mom (codes "rsi_14")
    v1 ← read mom (codes "macd")
    v2 ← read mom (codes "bb_width")
    v3 ← read mom (codes "bb_position")
    v4 ← read ind (codes "precomputed_ema_periods")
    v5 ← read ind (codes "runtime_divisions")
    ok (
        obj (
          put_field (codes "runtime_divisions") v5 (
            put_field (codes "precomputed_alpha_periods") v4 (
              put_field (codes "bb_position") v3 (
                put_field (codes "bb_width") v2
                  (put_field (codes "macd") v1 (put_field (codes "rsi_14") v0 (spread ts))))))))
  nim_combine _ = throw []

pub record NimState (Num : Type 0) : Type 0 where
  pub nim_data : Json Num
  pub nim_loading : Bool
  pub nim_garch : Json Num
  pub nim_garch_loading : Bool
  pub nim_forecast : Json Num
  pub nim_forecast_loading : Bool

-- The buttons.
pub data NimAction : Type 0 where
  on_run_nim on_run_nim_garch on_run_nim_forecast : NimAction

module _ {Num : Type 0} (js : Setting Num) where
  abbrev pub nim_initial : NimState Num
  nim_initial = record {
    nim_data = null;
    nim_loading = false;
    nim_garch = null;
    nim_garch_loading = false;
    nim_forecast = null;
    nim_forecast_loading = false;
  }

  unfoldable pub run_nim : Async Num (NimState Num) (Unit {0})
  run_nim =
      with_loading (λ b s. record s { nim_loading = b }) (λ s. record s { nim_data = null })
        (fetch_all_or (λ v s. record s { nim_data = v })
          (api js (codes "/api/nim/timeseries?mu=0.10&sigma=0.20&n=252" ∷ [])
            ∷ api js (codes "/api/nim/momentum?mu=0.10&sigma=0.20&n=252" ∷ [])
            ∷ api js (codes "/api/nim/indicators" ∷ [])
            ∷ [])
          nim_combine (codes "Nim 엔진 오프라인"))
        (λ s. record s { nim_data = error_value (codes "Nim 서버 접속 불가 (:8005)") })

  unfoldable pub run_nim_garch : Async Num (NimState Num) (Unit {0})
  run_nim_garch =
      with_loading (λ b s. record s { nim_garch_loading = b }) (λ s. record s { nim_garch = null })
        (fetch_or (λ v s. record s { nim_garch = v })
          (api js (codes "/api/nim/garch?omega=0.00001&alpha=0.1&beta=0.85&n=500" ∷ []))
          (codes "Nim GARCH offline"))
        (λ s. record s { nim_garch = error_value (codes "Nim 서버 접속 불가 (:8005)") })

  unfoldable pub run_nim_forecast : Async Num (NimState Num) (Unit {0})
  run_nim_forecast =
      with_loading (λ b s. record s { nim_forecast_loading = b })
        (λ s. record s { nim_forecast = null })
        (fetch_or (λ v s. record s { nim_forecast = v })
          (api js (codes "/api/nim/forecast?mu=0.10&sigma=0.20&n=100&p=2" ∷ []))
          (codes "Nim forecast offline"))
        (λ s. record s { nim_forecast = error_value (codes "Nim 서버 접속 불가 (:8005)") })

  abbrev nim_flag_of : NimAction → Option ℕ
  nim_flag_of on_run_nim = some 0
  nim_flag_of on_run_nim_garch = some 1
  nim_flag_of on_run_nim_forecast = some 2

  -- The `disabled` attributes.
  abbrev pub nim_enabled : NimAction → NimState Num → Bool
  nim_enabled on_run_nim s = not s.nim_loading
  nim_enabled on_run_nim_garch s = not s.nim_garch_loading
  nim_enabled on_run_nim_forecast s = not s.nim_forecast_loading

  abbrev nim_body : NimAction → Async Num (NimState Num) (Unit {0})
  nim_body on_run_nim = run_nim
  nim_body on_run_nim_garch = run_nim_garch
  nim_body on_run_nim_forecast = run_nim_forecast

  abbrev pub nim_flags : NimState Num → List Bool
  nim_flags s = s.nim_loading ∷ s.nim_garch_loading ∷ s.nim_forecast_loading ∷ []

  abbrev pub nim_panel : Panel Num
  nim_panel = record {
    State = NimState Num;
    Action = NimAction;
    Edit = NoEdit;
    initial = nim_initial;
    flags = nim_flags;
    flag_of = nim_flag_of;
    enabled = nim_enabled;
    body = nim_body;
    edit = λ e s. s;
  }

  nim-disabled :
      (a : NimAction) (s : NimState Num)
      → nim_enabled a s ≡ true
      → IsDown (nim_flag_of a) (nim_flags s)
  nim-disabled on_run_nim s e = (ground arith, omega arith)
  nim-disabled on_run_nim_garch s e = (ground arith, omega arith)
  nim-disabled on_run_nim_forecast s e = (ground arith, omega arith)

  nim-Starts : (a : NimAction) → Starts nim_flags (nim_flag_of a) (nim_body a)
  unfolding run_nim run_nim_garch run_nim_forecast
  nim-Starts on_run_nim =
      with_loading-Starts Num nim_flags 0 _ _ _ _ (λ b s. refl) (λ s. refl)
        (fetch_all_or-IsQuiet Num nim_flags _ _ _ _ (λ v s. refl)) (λ s. refl)
  nim-Starts on_run_nim_garch =
      with_loading-Starts Num nim_flags 1 _ _ _ _ (λ b s. refl) (λ s. refl)
        (fetch_or-IsQuiet Num nim_flags _ _ _ (λ v s. refl)) (λ s. refl)
  nim-Starts on_run_nim_forecast =
      with_loading-Starts Num nim_flags 2 _ _ _ _ (λ b s. refl) (λ s. refl)
        (fetch_or-IsQuiet Num nim_flags _ _ _ (λ v s. refl)) (λ s. refl)

  pub nim_panel-IsLawful : IsLawful nim_panel
  nim_panel-IsLawful = record {
    disabled = nim-disabled;
    idle = (refl, (refl, (refl, tt)));
    edits = λ e s. refl;
    starts = nim-Starts;
  }
