-- ===== src/Panels/Gleam.antt =====
-- portal-svelte/src/lib/components/panels/GleamPanel.svelte: validation, pipeline and risk of the Gleam service.
use polyglot_infinity.Prelude.{
  ℕ, ◌≡◌, refl, Bool, true, false, not, Option, some, List, [], ◌∷◌, arith, codes,
}
use polyglot_infinity.Js.Value.{Json, null, obj, end, read}
use polyglot_infinity.Js.Completion.{Completion, ok, throw}
use polyglot_infinity.Js.Spread.{set_field, put_field, spread, read_index}
use polyglot_infinity.Js.Async.{Async}
use polyglot_infinity.Panels.Machine.{Panel, NoEdit}
use polyglot_infinity.Panels.Machine.Laws.{IsDown, Starts, IsLawful}
use polyglot_infinity.Panels.Setting.{Setting, api}
use polyglot_infinity.Panels.Shape.{error_value, with_loading, fetch_jsons_into, fetch_json_into}
use polyglot_infinity.Panels.Shape.Laws.{
  with_loading-Starts, fetch_jsons_into-IsQuiet, fetch_json_into-IsQuiet,
}

module _ {Num : Type 0} where
  -- What `runGleam` makes of the three bodies.
  unfoldable pub gleam_combine : List (Json Num) → Completion (Json Num)
  unfolding put_field set_field spread read read_index
  gleam_combine (valid_ok ∷ valid_err ∷ contract ∷ []) = ok (
      obj (
        put_field (codes "contract") (some contract) (
          put_field (codes "valid_err") (some valid_err)
            (put_field (codes "valid_ok") (some valid_ok) end))))
  gleam_combine _ = throw []

pub record GleamState (Num : Type 0) : Type 0 where
  pub gleam_data : Json Num
  pub gleam_loading : Bool
  pub pipeline_data : Json Num
  pub pipeline_loading : Bool
  pub risk_data : Json Num
  pub risk_loading : Bool

-- The buttons.
pub data GleamAction : Type 0 where
  on_run_gleam on_run_gleam_pipeline on_run_gleam_risk : GleamAction

module _ {Num : Type 0} (js : Setting Num) where
  abbrev pub gleam_initial : GleamState Num
  gleam_initial = record {
    gleam_data = null;
    gleam_loading = false;
    pipeline_data = null;
    pipeline_loading = false;
    risk_data = null;
    risk_loading = false;
  }

  unfoldable pub run_gleam : Async Num (GleamState Num) (Unit {0})
  run_gleam =
      with_loading (λ b s. record s { gleam_loading = b }) (λ s. s)
        (fetch_jsons_into (λ v s. record s { gleam_data = v })
          (api js (codes "/api/gleam/validate?service=risk&score=750&grade=A" ∷ [])
            ∷ api js (codes "/api/gleam/validate?service=risk&score=1500&grade=X" ∷ [])
            ∷ api js (codes "/api/gleam/contract" ∷ [])
            ∷ [])
          gleam_combine)
        (λ s. record s { gleam_data = error_value (codes "Gleam 서버 접속 불가 (:4001)") })

  unfoldable pub run_gleam_pipeline : Async Num (GleamState Num) (Unit {0})
  run_gleam_pipeline =
      with_loading (λ b s. record s { pipeline_loading = b }) (λ s. s)
        (fetch_json_into (λ v s. record s { pipeline_data = v })
          (api js (codes "/api/gleam/pipeline?n=252&mu=0.05&sigma=0.18" ∷ [])))
        (λ s. record s { pipeline_data = error_value (codes "Gleam 서버 접속 불가 (:4001)") })

  unfoldable pub run_gleam_risk : Async Num (GleamState Num) (Unit {0})
  run_gleam_risk =
      with_loading (λ b s. record s { risk_loading = b }) (λ s. s)
        (fetch_json_into (λ v s. record s { risk_data = v })
          (api js (codes "/api/gleam/risk?n=252&mu=0.05&sigma=0.18" ∷ [])))
        (λ s. record s { risk_data = error_value (codes "Gleam 서버 접속 불가 (:4001)") })

  abbrev gleam_flag_of : GleamAction → Option ℕ
  gleam_flag_of on_run_gleam = some 0
  gleam_flag_of on_run_gleam_pipeline = some 1
  gleam_flag_of on_run_gleam_risk = some 2

  -- The `disabled` attributes.
  abbrev pub gleam_enabled : GleamAction → GleamState Num → Bool
  gleam_enabled on_run_gleam s = not s.gleam_loading
  gleam_enabled on_run_gleam_pipeline s = not s.pipeline_loading
  gleam_enabled on_run_gleam_risk s = not s.risk_loading

  abbrev gleam_body : GleamAction → Async Num (GleamState Num) (Unit {0})
  gleam_body on_run_gleam = run_gleam
  gleam_body on_run_gleam_pipeline = run_gleam_pipeline
  gleam_body on_run_gleam_risk = run_gleam_risk

  abbrev pub gleam_flags : GleamState Num → List Bool
  gleam_flags s = s.gleam_loading ∷ s.pipeline_loading ∷ s.risk_loading ∷ []

  abbrev pub gleam_panel : Panel Num
  gleam_panel = record {
    State = GleamState Num;
    Action = GleamAction;
    Edit = NoEdit;
    initial = gleam_initial;
    flags = gleam_flags;
    flag_of = gleam_flag_of;
    enabled = gleam_enabled;
    body = gleam_body;
    edit = λ e s. s;
  }

  gleam-disabled :
      (a : GleamAction) (s : GleamState Num)
      → gleam_enabled a s ≡ true
      → IsDown (gleam_flag_of a) (gleam_flags s)
  gleam-disabled on_run_gleam s e = (ground arith, omega arith)
  gleam-disabled on_run_gleam_pipeline s e = (ground arith, omega arith)
  gleam-disabled on_run_gleam_risk s e = (ground arith, omega arith)

  gleam-Starts : (a : GleamAction) → Starts gleam_flags (gleam_flag_of a) (gleam_body a)
  unfolding run_gleam run_gleam_pipeline run_gleam_risk
  gleam-Starts on_run_gleam =
      with_loading-Starts Num gleam_flags 0 _ _ _ _ (λ b s. refl) (λ s. refl)
        (fetch_jsons_into-IsQuiet Num gleam_flags _ _ _ (λ v s. refl)) (λ s. refl)
  gleam-Starts on_run_gleam_pipeline =
      with_loading-Starts Num gleam_flags 1 _ _ _ _ (λ b s. refl) (λ s. refl)
        (fetch_json_into-IsQuiet Num gleam_flags _ _ (λ v s. refl)) (λ s. refl)
  gleam-Starts on_run_gleam_risk =
      with_loading-Starts Num gleam_flags 2 _ _ _ _ (λ b s. refl) (λ s. refl)
        (fetch_json_into-IsQuiet Num gleam_flags _ _ (λ v s. refl)) (λ s. refl)

  pub gleam_panel-IsLawful : IsLawful gleam_panel
  gleam_panel-IsLawful = record {
    disabled = gleam-disabled;
    idle = (refl, (refl, (refl, tt)));
    edits = λ e s. refl;
    starts = gleam-Starts;
  }
