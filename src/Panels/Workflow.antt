-- ===== src/Panels/Workflow.antt =====
-- portal-svelte/src/lib/components/panels/WorkflowPanel.svelte: the risk workflow and the circuit breakers of the gateway.
use polyglot_infinity.Prelude.{
  ℕ, ◌≡◌, refl, Bool, true, false, not, Option, some, List, [], ◌∷◌, if◌then◌else◌, arith, Text,
  text_eq, codes,
}
use polyglot_infinity.Js.Value.{Json, null, str}
use polyglot_infinity.Js.Spread.{maybe_read}
use polyglot_infinity.Js.Async.{Async}
use polyglot_infinity.Panels.Machine.{Panel, NoEdit}
use polyglot_infinity.Panels.Machine.Laws.{IsDown, Starts, IsLawful}
use polyglot_infinity.Panels.Setting.{Setting, api}
use polyglot_infinity.Panels.Shape.{error_value, with_loading, fetch_or}
use polyglot_infinity.Panels.Shape.Laws.{with_loading-Starts, fetch_or-IsQuiet}

-- How the panel shows the state of a circuit breaker, and a step of the workflow.
abbrev pub cb_class : Text → Text
cb_class state =
    if text_eq state (codes "closed")
    then codes "cb-closed"
    else if text_eq state (codes "open")
    then codes "cb-open"
    else codes "cb-half"

abbrev pub cb_label : Text → Text
cb_label state =
    if text_eq state (codes "closed")
    then codes "✓ 정상"
    else if text_eq state (codes "open")
    then codes "✕ 차단"
    else codes "~ 복구중"

-- `step?.status === "ok"`.
abbrev pub is_text : {Num : Type 0} → Option (Json Num) → Text → Bool
is_text (some (str s)) t = text_eq s t
is_text _ t = false

module _ {Num : Type 0} where
  abbrev pub step_class : Option (Json Num) → Text
  step_class step =
      if is_text (maybe_read step (codes "status")) (codes "ok")
      then codes "step-ok"
      else codes "step-err"

  abbrev pub step_icon : Option (Json Num) → Text
  step_icon step =
      if is_text (maybe_read step (codes "status")) (codes "ok") then codes "✓" else codes "✕"

pub record WorkflowState (Num : Type 0) : Type 0 where
  pub risk_result : Json Num
  pub circuit_result : Json Num
  pub risk_loading : Bool
  pub circuit_loading : Bool

-- The buttons.
pub data WorkflowAction : Type 0 where
  on_run_risk_full on_fetch_circuit : WorkflowAction

module _ {Num : Type 0} (js : Setting Num) where
  abbrev pub workflow_initial : WorkflowState Num
  workflow_initial = record {
    risk_result = null;
    circuit_result = null;
    risk_loading = false;
    circuit_loading = false;
  }

  unfoldable pub run_risk_full : Async Num (WorkflowState Num) (Unit {0})
  run_risk_full =
      with_loading (λ b s. record s { risk_loading = b }) (λ s. record s { risk_result = null })
        (fetch_or (λ v s. record s { risk_result = v })
          (api js (codes "/api/workflow/risk-full" ∷ [])) (codes "Go 워크플로 오프라인"))
        (λ s. record s { risk_result = error_value (codes "Go 게이트웨이 접속 불가 (:8080)") })

  unfoldable pub fetch_circuit : Async Num (WorkflowState Num) (Unit {0})
  fetch_circuit =
      with_loading (λ b s. record s { circuit_loading = b })
        (λ s. record s { circuit_result = null })
        (fetch_or (λ v s. record s { circuit_result = v })
          (api js (codes "/api/circuit/status" ∷ [])) (codes "서킷 브레이커 조회 실패"))
        (λ s. record s { circuit_result = error_value (codes "Go 게이트웨이 접속 불가 (:8080)") })

  abbrev workflow_flag_of : WorkflowAction → Option ℕ
  workflow_flag_of on_run_risk_full = some 0
  workflow_flag_of on_fetch_circuit = some 1

  -- The `disabled` attributes.
  abbrev pub workflow_enabled : WorkflowAction → WorkflowState Num → Bool
  workflow_enabled on_run_risk_full s = not s.risk_loading
  workflow_enabled on_fetch_circuit s = not s.circuit_loading

  abbrev workflow_body : WorkflowAction → Async Num (WorkflowState Num) (Unit {0})
  workflow_body on_run_risk_full = run_risk_full
  workflow_body on_fetch_circuit = fetch_circuit

  abbrev pub workflow_flags : WorkflowState Num → List Bool
  workflow_flags s = s.risk_loading ∷ s.circuit_loading ∷ []

  abbrev pub workflow_panel : Panel Num
  workflow_panel = record {
    State = WorkflowState Num;
    Action = WorkflowAction;
    Edit = NoEdit;
    initial = workflow_initial;
    flags = workflow_flags;
    flag_of = workflow_flag_of;
    enabled = workflow_enabled;
    body = workflow_body;
    edit = λ e s. s;
  }

  workflow-disabled :
      (a : WorkflowAction) (s : WorkflowState Num)
      → workflow_enabled a s ≡ true
      → IsDown (workflow_flag_of a) (workflow_flags s)
  workflow-disabled on_run_risk_full s e = (ground arith, omega arith)
  workflow-disabled on_fetch_circuit s e = (ground arith, omega arith)

  workflow-Starts :
      (a : WorkflowAction) → Starts workflow_flags (workflow_flag_of a) (workflow_body a)
  unfolding run_risk_full fetch_circuit
  workflow-Starts on_run_risk_full =
      with_loading-Starts Num workflow_flags 0 _ _ _ _ (λ b s. refl) (λ s. refl)
        (fetch_or-IsQuiet Num workflow_flags _ _ _ (λ v s. refl)) (λ s. refl)
  workflow-Starts on_fetch_circuit =
      with_loading-Starts Num workflow_flags 1 _ _ _ _ (λ b s. refl) (λ s. refl)
        (fetch_or-IsQuiet Num workflow_flags _ _ _ (λ v s. refl)) (λ s. refl)

  pub workflow_panel-IsLawful : IsLawful workflow_panel
  workflow_panel-IsLawful = record {
    disabled = workflow-disabled;
    idle = (refl, (refl, tt));
    edits = λ e s. refl;
    starts = workflow-Starts;
  }
