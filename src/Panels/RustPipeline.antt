-- ===== src/Panels/RustPipeline.antt =====
-- portal-svelte/src/lib/components/panels/RustPipelinePanel.svelte: the pipeline of the Rust service. The callback of the page that shows the panel is counted.
use polyglot_infinity.Prelude.{
  ℕ, ◌+◌, ◌≡◌, refl, Bool, true, false, not, Option, none, some, List, [], ◌∷◌, arith, codes,
}
use polyglot_infinity.Js.Value.{Json, null, str, obj, end, field}
use polyglot_infinity.Js.Async.{Async, bind, try_catch, assign, fetch, json}
use polyglot_infinity.Js.Async.Laws.{
  IsQuiet, bind-IsQuiet, try_catch-IsQuiet, try_catch-IsCalm, assign-IsQuiet, assign-IsCalm,
  fetch-IsQuiet, json-IsQuiet,
}
use polyglot_infinity.Panels.Machine.{Panel, NoEdit}
use polyglot_infinity.Panels.Machine.Laws.{IsDown, Starts, IsLawful}
use polyglot_infinity.Panels.Setting.{Setting, api}
use polyglot_infinity.Panels.Shape.{error_value, with_loading, fetch_or, fetch_if_ok}
use polyglot_infinity.Panels.Shape.Laws.{with_loading-Starts, fetch_or-IsQuiet, fetch_if_ok-IsQuiet}

pub record RustPipelineState (Num : Type 0) : Type 0 where
  pub pipeline_result : Json Num
  pub risk_summary : Json Num
  pub rust_status : Json Num
  pub pipeline_loading : Bool
  pub summary_loading : Bool
  pub triggers : ℕ

-- The buttons.
pub data RustPipelineAction : Type 0 where
  on_fetch_rust_status on_trigger_pipeline on_fetch_risk_summary : RustPipelineAction

module _ {Num : Type 0} (js : Setting Num) where
  abbrev pub rust_pipeline_initial : RustPipelineState Num
  rust_pipeline_initial = record {
    pipeline_result = null;
    risk_summary = null;
    rust_status = null;
    pipeline_loading = false;
    summary_loading = false;
    triggers = 0;
  }

  unfoldable pub fetch_rust_status : Async Num (RustPipelineState Num) (Unit {0})
  unfolding try_catch
  fetch_rust_status =
      try_catch
        (fetch_if_ok (λ v s. record s { rust_status = v }) (api js (codes "/api/rust/status" ∷ [])))
        (λ m. assign (λ s. record s { rust_status = null }))

  unfoldable pub trigger_pipeline : Async Num (RustPipelineState Num) (Unit {0})
  unfolding fetch_rust_status
  trigger_pipeline =
      with_loading (λ b s. record s { pipeline_loading = b })
        (λ s. record s { pipeline_result = null })
        (bind
          (fetch (record (api js (codes "/api/pipeline/trigger" ∷ [])) { method = codes "POST" }))
          (λ res. bind (json res) (λ v. bind (assign (λ s. record s { pipeline_result = v })) (λ u.
            bind (assign (λ s. record s { triggers = s.triggers + 1 })) (λ w. fetch_rust_status)))))
        (λ s. record s {
          pipeline_result = obj (
              field (codes "status") (str (codes "error"))
                (field (codes "message") (str (codes "Rust Pipeline unreachable")) end));
        })

  unfoldable pub fetch_risk_summary : Async Num (RustPipelineState Num) (Unit {0})
  fetch_risk_summary =
      with_loading (λ b s. record s { summary_loading = b }) (λ s. record s { risk_summary = null })
        (fetch_or (λ v s. record s { risk_summary = v }) (api js (codes "/api/risk/summary" ∷ []))
          (codes "Rust 서버 오프라인"))
        (λ s. record s { risk_summary = error_value (codes "Rust 서버 접속 불가 (:8081)") })

  abbrev rust_pipeline_flag_of : RustPipelineAction → Option ℕ
  rust_pipeline_flag_of on_fetch_rust_status = none
  rust_pipeline_flag_of on_trigger_pipeline = some 0
  rust_pipeline_flag_of on_fetch_risk_summary = some 1

  -- The `disabled` attributes.
  abbrev pub rust_pipeline_enabled : RustPipelineAction → RustPipelineState Num → Bool
  rust_pipeline_enabled on_fetch_rust_status s = true
  rust_pipeline_enabled on_trigger_pipeline s = not s.pipeline_loading
  rust_pipeline_enabled on_fetch_risk_summary s = not s.summary_loading

  abbrev rust_pipeline_body : RustPipelineAction → Async Num (RustPipelineState Num) (Unit {0})
  rust_pipeline_body on_fetch_rust_status = fetch_rust_status
  rust_pipeline_body on_trigger_pipeline = trigger_pipeline
  rust_pipeline_body on_fetch_risk_summary = fetch_risk_summary

  abbrev pub rust_pipeline_flags : RustPipelineState Num → List Bool
  rust_pipeline_flags s = s.pipeline_loading ∷ s.summary_loading ∷ []

  abbrev pub rust_pipeline_panel : Panel Num
  rust_pipeline_panel = record {
    State = RustPipelineState Num;
    Action = RustPipelineAction;
    Edit = NoEdit;
    initial = rust_pipeline_initial;
    flags = rust_pipeline_flags;
    flag_of = rust_pipeline_flag_of;
    enabled = rust_pipeline_enabled;
    body = rust_pipeline_body;
    edit = λ e s. s;
  }

  fetch_rust_status-IsQuiet : IsQuiet rust_pipeline_flags fetch_rust_status
  unfolding fetch_rust_status
  fetch_rust_status-IsQuiet =
      try_catch-IsQuiet rust_pipeline_flags _ _
        (fetch_if_ok-IsQuiet Num rust_pipeline_flags _ _ (λ v s. refl))
        (λ m. assign-IsQuiet Num rust_pipeline_flags _ (λ s. refl))

  rust_pipeline-disabled :
      (a : RustPipelineAction) (s : RustPipelineState Num)
      → rust_pipeline_enabled a s ≡ true
      → IsDown (rust_pipeline_flag_of a) (rust_pipeline_flags s)
  rust_pipeline-disabled on_fetch_rust_status s e = tt
  rust_pipeline-disabled on_trigger_pipeline s e = (ground arith, omega arith)
  rust_pipeline-disabled on_fetch_risk_summary s e = (ground arith, omega arith)

  rust_pipeline-Starts :
      (a : RustPipelineAction)
      → Starts rust_pipeline_flags (rust_pipeline_flag_of a) (rust_pipeline_body a)
  unfolding fetch_rust_status trigger_pipeline fetch_risk_summary
  rust_pipeline-Starts on_fetch_rust_status =
      try_catch-IsCalm rust_pipeline_flags _ _
        (fetch_if_ok-IsQuiet Num rust_pipeline_flags _ _ (λ v s. refl))
        (λ m. assign-IsCalm Num rust_pipeline_flags _ (λ s. refl))
  rust_pipeline-Starts on_trigger_pipeline =
      with_loading-Starts Num rust_pipeline_flags 0 _ _ _ _ (λ b s. refl) (λ s. refl)
        (bind-IsQuiet rust_pipeline_flags _ _ (fetch-IsQuiet Num rust_pipeline_flags _) (λ res.
          bind-IsQuiet rust_pipeline_flags _ _ (json-IsQuiet Num rust_pipeline_flags res) (λ v.
            bind-IsQuiet rust_pipeline_flags _ _
              (assign-IsQuiet Num rust_pipeline_flags _ (λ s. refl))
              (λ u.
                bind-IsQuiet rust_pipeline_flags _ _
                  (assign-IsQuiet Num rust_pipeline_flags _ (λ s. refl))
                  (λ w. fetch_rust_status-IsQuiet)))))
        (λ s. refl)
  rust_pipeline-Starts on_fetch_risk_summary =
      with_loading-Starts Num rust_pipeline_flags 1 _ _ _ _ (λ b s. refl) (λ s. refl)
        (fetch_or-IsQuiet Num rust_pipeline_flags _ _ _ (λ v s. refl)) (λ s. refl)

  pub rust_pipeline_panel-IsLawful : IsLawful rust_pipeline_panel
  rust_pipeline_panel-IsLawful = record {
    disabled = rust_pipeline-disabled;
    idle = (refl, (refl, tt));
    edits = λ e s. refl;
    starts = rust_pipeline-Starts;
  }
