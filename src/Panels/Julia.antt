-- ===== src/Panels/Julia.antt =====
-- portal-svelte/src/lib/components/panels/JuliaPanel.svelte: the simulations of the Julia engine.
use polyglot_infinity.Prelude.{
  ℕ, ◌≡◌, refl, Bool, true, false, not, Option, some, List, [], ◌∷◌, arith, codes,
}
use polyglot_infinity.Js.Value.{Json, null}
use polyglot_infinity.Js.Async.{Async}
use polyglot_infinity.Panels.Machine.{Panel, NoEdit}
use polyglot_infinity.Panels.Machine.Laws.{IsDown, Starts, IsLawful}
use polyglot_infinity.Panels.Setting.{Setting, api}
use polyglot_infinity.Panels.Shape.{error_value, with_loading, fetch_or}
use polyglot_infinity.Panels.Shape.Laws.{with_loading-Starts, fetch_or-IsQuiet}

pub record JuliaState (Num : Type 0) : Type 0 where
  pub julia_result : Json Num
  pub stress_result : Json Num
  pub julia_loading : Bool
  pub stress_loading : Bool

-- The buttons.
pub data JuliaAction : Type 0 where
  on_run_julia on_run_stress : JuliaAction

module _ {Num : Type 0} (js : Setting Num) where
  abbrev pub julia_initial : JuliaState Num
  julia_initial = record {
    julia_result = null;
    stress_result = null;
    julia_loading = false;
    stress_loading = false;
  }

  unfoldable pub run_julia : Async Num (JuliaState Num) (Unit {0})
  run_julia =
      with_loading (λ b s. record s { julia_loading = b }) (λ s. record s { julia_result = null })
        (fetch_or (λ v s. record s { julia_result = v })
          (api js (codes "/api/julia/simulate?paths=10000&days=252&vol=0.20&mu=0.05" ∷ []))
          (codes "Julia engine offline"))
        (λ s. record s { julia_result = error_value (codes "Julia engine unreachable") })

  unfoldable pub run_stress : Async Num (JuliaState Num) (Unit {0})
  run_stress =
      with_loading (λ b s. record s { stress_loading = b }) (λ s. record s { stress_result = null })
        (fetch_or (λ v s. record s { stress_result = v })
          (api js (codes "/api/julia/stress?paths=5000&days=252" ∷ []))
          (codes "Julia engine offline"))
        (λ s. record s { stress_result = error_value (codes "Julia engine unreachable") })

  abbrev julia_flag_of : JuliaAction → Option ℕ
  julia_flag_of on_run_julia = some 0
  julia_flag_of on_run_stress = some 1

  -- The `disabled` attributes.
  abbrev pub julia_enabled : JuliaAction → JuliaState Num → Bool
  julia_enabled on_run_julia s = not s.julia_loading
  julia_enabled on_run_stress s = not s.stress_loading

  abbrev julia_body : JuliaAction → Async Num (JuliaState Num) (Unit {0})
  julia_body on_run_julia = run_julia
  julia_body on_run_stress = run_stress

  abbrev pub julia_flags : JuliaState Num → List Bool
  julia_flags s = s.julia_loading ∷ s.stress_loading ∷ []

  abbrev pub julia_panel : Panel Num
  julia_panel = record {
    State = JuliaState Num;
    Action = JuliaAction;
    Edit = NoEdit;
    initial = julia_initial;
    flags = julia_flags;
    flag_of = julia_flag_of;
    enabled = julia_enabled;
    body = julia_body;
    edit = λ e s. s;
  }

  julia-disabled :
      (a : JuliaAction) (s : JuliaState Num)
      → julia_enabled a s ≡ true
      → IsDown (julia_flag_of a) (julia_flags s)
  julia-disabled on_run_julia s e = (ground arith, omega arith)
  julia-disabled on_run_stress s e = (ground arith, omega arith)

  julia-Starts : (a : JuliaAction) → Starts julia_flags (julia_flag_of a) (julia_body a)
  unfolding run_julia run_stress
  julia-Starts on_run_julia =
      with_loading-Starts Num julia_flags 0 _ _ _ _ (λ b s. refl) (λ s. refl)
        (fetch_or-IsQuiet Num julia_flags _ _ _ (λ v s. refl)) (λ s. refl)
  julia-Starts on_run_stress =
      with_loading-Starts Num julia_flags 1 _ _ _ _ (λ b s. refl) (λ s. refl)
        (fetch_or-IsQuiet Num julia_flags _ _ _ (λ v s. refl)) (λ s. refl)

  pub julia_panel-IsLawful : IsLawful julia_panel
  julia_panel-IsLawful = record {
    disabled = julia-disabled;
    idle = (refl, (refl, tt));
    edits = λ e s. refl;
    starts = julia-Starts;
  }
