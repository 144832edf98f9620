-- ===== src/Panels/R.antt =====
-- portal-svelte/src/lib/components/panels/RPanel.svelte: the fits of the R engine.
use polyglot_infinity.Prelude.{
  ℕ, ◌≡◌, refl, Bool, true, false, not, Option, some, List, [], ◌∷◌, arith, codes,
}
use polyglot_infinity.Js.Value.{Json, null}
use polyglot_infinity.Js.Async.{Async}
use polyglot_infinity.Panels.Machine.{Panel, NoEdit}
use polyglot_infinity.Panels.Machine.Laws.{IsDown, Starts, IsLawful}
use polyglot_infinity.Panels.Setting.{Setting, api}
use polyglot_infinity.Panels.Shape.{error_value, with_loading, fetch_or}
use polyglot_infinity.Panels.Shape.Laws.{with_loading-Starts, fetch_or-IsQuiet}

pub record RState (Num : Type 0) : Type 0 where
  pub r_fit : Json Num
  pub r_corr : Json Num
  pub r_loading : Bool
  pub corr_loading : Bool
  pub r_garch : Json Num
  pub garch_loading : Bool
  pub r_arima : Json Num
  pub arima_loading : Bool

-- The buttons.
pub data RAction : Type 0 where
  on_run_r_fit on_run_r_corr on_run_r_garch on_run_r_arima : RAction

module _ {Num : Type 0} (js : Setting Num) where
  abbrev pub r_initial : RState Num
  r_initial = record {
    r_fit = null;
    r_corr = null;
    r_loading = false;
    corr_loading = false;
    r_garch = null;
    garch_loading = false;
    r_arima = null;
    arima_loading = false;
  }

  unfoldable pub run_r_fit : Async Num (RState Num) (Unit {0})
  run_r_fit =
      with_loading (λ b s. record s { r_loading = b }) (λ s. record s { r_fit = null })
        (fetch_or (λ v s. record s { r_fit = v }) (api js (codes "/api/r/fit?n=1000" ∷ []))
          (codes "R engine offline"))
        (λ s. record s { r_fit = error_value (codes "R engine unreachable") })

  unfoldable pub run_r_corr : Async Num (RState Num) (Unit {0})
  run_r_corr =
      with_loading (λ b s. record s { corr_loading = b }) (λ s. record s { r_corr = null })
        (fetch_or (λ v s. record s { r_corr = v }) (api js (codes "/api/r/correlation" ∷ []))
          (codes "R engine offline"))
        (λ s. record s { r_corr = error_value (codes "R engine unreachable") })

  unfoldable pub run_r_garch : Async Num (RState Num) (Unit {0})
  run_r_garch =
      with_loading (λ b s. record s { garch_loading = b }) (λ s. record s { r_garch = null })
        (fetch_or (λ v s. record s { r_garch = v })
          (api js (codes "/api/r/garch?omega=0.00001&alpha=0.1&beta=0.85&n=500" ∷ []))
          (codes "R GARCH offline"))
        (λ s. record s { r_garch = error_value (codes "R engine unreachable") })

  unfoldable pub run_r_arima : Async Num (RState Num) (Unit {0})
  run_r_arima =
      with_loading (λ b s. record s { arima_loading = b }) (λ s. record s { r_arima = null })
        (fetch_or (λ v s. record s { r_arima = v })
          (api js (codes "/api/r/arima?n=200&order_p=1&order_d=0&order_q=1" ∷ []))
          (codes "R ARIMA offline"))
        (λ s. record s { r_arima = error_value (codes "R engine unreachable") })

  abbrev r_flag_of : RAction → Option ℕ
  r_flag_of on_run_r_fit = some 0
  r_flag_of on_run_r_corr = some 1
  r_flag_of on_run_r_garch = some 2
  r_flag_of on_run_r_arima = some 3

  -- The `disabled` attributes.
  abbrev pub r_enabled : RAction → RState Num → Bool
  r_enabled on_run_r_fit s = not s.r_loading
  r_enabled on_run_r_corr s = not s.corr_loading
  r_enabled on_run_r_garch s = not s.garch_loading
  r_enabled on_run_r_arima s = not s.arima_loading

  abbrev r_body : RAction → Async Num (RState Num) (Unit {0})
  r_body on_run_r_fit = run_r_fit
  r_body on_run_r_corr = run_r_corr
  r_body on_run_r_garch = run_r_garch
  r_body on_run_r_arima = run_r_arima

  abbrev pub r_flags : RState Num → List Bool
  r_flags s = s.r_loading ∷ s.corr_loading ∷ s.garch_loading ∷ s.arima_loading ∷ []

  abbrev pub r_panel : Panel Num
  r_panel = record {
    State = RState Num;
    Action = RAction;
    Edit = NoEdit;
    initial = r_initial;
    flags = r_flags;
    flag_of = r_flag_of;
    enabled = r_enabled;
    body = r_body;
    edit = λ e s. s;
  }

  r-disabled :
      (a : RAction) (s : RState Num) → r_enabled a s ≡ true → IsDown (r_flag_of a) (r_flags s)
  r-disabled on_run_r_fit s e = (ground arith, omega arith)
  r-disabled on_run_r_corr s e = (ground arith, omega arith)
  r-disabled on_run_r_garch s e = (ground arith, omega arith)
  r-disabled on_run_r_arima s e = (ground arith, omega arith)

  r-Starts : (a : RAction) → Starts r_flags (r_flag_of a) (r_body a)
  unfolding run_r_fit run_r_corr run_r_garch run_r_arima
  r-Starts on_run_r_fit =
      with_loading-Starts Num r_flags 0 _ _ _ _ (λ b s. refl) (λ s. refl)
        (fetch_or-IsQuiet Num r_flags _ _ _ (λ v s. refl)) (λ s. refl)
  r-Starts on_run_r_corr =
      with_loading-Starts Num r_flags 1 _ _ _ _ (λ b s. refl) (λ s. refl)
        (fetch_or-IsQuiet Num r_flags _ _ _ (λ v s. refl)) (λ s. refl)
  r-Starts on_run_r_garch =
      with_loading-Starts Num r_flags 2 _ _ _ _ (λ b s. refl) (λ s. refl)
        (fetch_or-IsQuiet Num r_flags _ _ _ (λ v s. refl)) (λ s. refl)
  r-Starts on_run_r_arima =
      with_loading-Starts Num r_flags 3 _ _ _ _ (λ b s. refl) (λ s. refl)
        (fetch_or-IsQuiet Num r_flags _ _ _ (λ v s. refl)) (λ s. refl)

  pub r_panel-IsLawful : IsLawful r_panel
  r_panel-IsLawful = record {
    disabled = r-disabled;
    idle = (refl, (refl, (refl, (refl, tt))));
    edits = λ e s. refl;
    starts = r-Starts;
  }
