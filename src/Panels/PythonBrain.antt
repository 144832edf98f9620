-- ===== src/Panels/PythonBrain.antt =====
-- portal-svelte/src/lib/components/panels/PythonBrainPanel.svelte: the analysis of the Python service.
use polyglot_infinity.Prelude.{
  ℕ, ◌≡◌, refl, Bool, true, false, not, Option, some, List, [], ◌∷◌, arith, codes,
}
use polyglot_infinity.Js.Value.{Json, null}
use polyglot_infinity.Js.Async.{Async}
use polyglot_infinity.Panels.Machine.{Panel, NoEdit}
use polyglot_infinity.Panels.Machine.Laws.{IsDown, Starts, IsLawful}
use polyglot_infinity.Panels.Setting.{Setting, api}
use polyglot_infinity.Panels.Shape.{error_value, with_loading, fetch_or}
use polyglot_infinity.Panels.Shape.Laws.{with_loading-Starts, fetch_or-IsQuiet}

pub record PythonBrainState (Num : Type 0) : Type 0 where
  pub brain_data : Json Num
  pub brain_loading : Bool

-- The buttons.
pub data PythonBrainAction : Type 0 where
  on_run_brain : PythonBrainAction

module _ {Num : Type 0} (js : Setting Num) where
  abbrev pub python_brain_initial : PythonBrainState Num
  python_brain_initial = record { brain_data = null; brain_loading = false }

  unfoldable pub run_brain : Async Num (PythonBrainState Num) (Unit {0})
  run_brain =
      with_loading (λ b s. record s { brain_loading = b }) (λ s. record s { brain_data = null })
        (fetch_or (λ v s. record s { brain_data = v }) (api js (codes "/api/analyze" ∷ []))
          (codes "Python Brain 오프라인"))
        (λ s. record s { brain_data = error_value (codes "Python Brain 접속 불가 (:8000)") })

  abbrev python_brain_flag_of : PythonBrainAction → Option ℕ
  python_brain_flag_of on_run_brain = some 0

  -- The `disabled` attributes.
  abbrev pub python_brain_enabled : PythonBrainAction → PythonBrainState Num → Bool
  python_brain_enabled on_run_brain s = not s.brain_loading

  abbrev python_brain_body : PythonBrainAction → Async Num (PythonBrainState Num) (Unit {0})
  python_brain_body on_run_brain = run_brain

  abbrev pub python_brain_flags : PythonBrainState Num → List Bool
  python_brain_flags s = s.brain_loading ∷ []

  abbrev pub python_brain_panel : Panel Num
  python_brain_panel = record {
    State = PythonBrainState Num;
    Action = PythonBrainAction;
    Edit = NoEdit;
    initial = python_brain_initial;
    flags = python_brain_flags;
    flag_of = python_brain_flag_of;
    enabled = python_brain_enabled;
    body = python_brain_body;
    edit = λ e s. s;
  }

  python_brain-disabled :
      (a : PythonBrainAction) (s : PythonBrainState Num)
      → python_brain_enabled a s ≡ true
      → IsDown (python_brain_flag_of a) (python_brain_flags s)
  python_brain-disabled on_run_brain s e = (ground arith, omega arith)

  python_brain-Starts :
      (a : PythonBrainAction)
      → Starts python_brain_flags (python_brain_flag_of a) (python_brain_body a)
  unfolding run_brain
  python_brain-Starts on_run_brain =
      with_loading-Starts Num python_brain_flags 0 _ _ _ _ (λ b s. refl) (λ s. refl)
        (fetch_or-IsQuiet Num python_brain_flags _ _ _ (λ v s. refl)) (λ s. refl)

  pub python_brain_panel-IsLawful : IsLawful python_brain_panel
  python_brain_panel-IsLawful = record {
    disabled = python_brain-disabled;
    idle = (refl, tt);
    edits = λ e s. refl;
    starts = python_brain-Starts;
  }
