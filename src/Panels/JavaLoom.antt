-- ===== src/Panels/JavaLoom.antt =====
-- portal-svelte/src/lib/components/panels/JavaLoomPanel.svelte: the virtual threads of the Java service.
use polyglot_infinity.Prelude.{
  ℕ, ◌≡◌, refl, Bool, true, false, not, Option, none, some, List, [], ◌∷◌, arith, codes,
}
use polyglot_infinity.Js.Value.{Json, null, obj, end, read}
use polyglot_infinity.Js.Completion.{Completion, ok, throw}
use polyglot_infinity.Js.Spread.{set_field, put_field, spread, read_index}
use polyglot_infinity.Js.Async.{Async, try_catch, assign}
use polyglot_infinity.Js.Async.Laws.{try_catch-IsCalm, assign-IsCalm}
use polyglot_infinity.Panels.Machine.{Panel, NoEdit}
use polyglot_infinity.Panels.Machine.Laws.{IsDown, Starts, IsLawful}
use polyglot_infinity.Panels.Setting.{Setting, api}
use polyglot_infinity.Panels.Shape.{
  error_value, with_loading, fetch_jsons_into, fetch_json_into, fetch_if_ok,
}
use polyglot_infinity.Panels.Shape.Laws.{
  with_loading-Starts, fetch_jsons_into-IsQuiet, fetch_json_into-IsQuiet, fetch_if_ok-IsQuiet,
}

module _ {Num : Type 0} where
  -- What `runJava` makes of the two bodies.
  unfoldable pub java_combine : List (Json Num) → Completion (Json Num)
  unfolding put_field set_field spread read read_index
  java_combine (vthreads ∷ compare ∷ []) = ok (
      obj (
        put_field (codes "compare") (some compare)
          (put_field (codes "vthreads") (some vthreads) end)))
  java_combine _ = throw []

pub record JavaLoomState (Num : Type 0) : Type 0 where
  pub java_data : Json Num
  pub java_loading : Bool
  pub pipeline_data : Json Num
  pub pipeline_loading : Bool
  pub java_status : Json Num

-- The buttons.
pub data JavaLoomAction : Type 0 where
  on_run_java on_run_java_pipeline on_mount_java : JavaLoomAction

module _ {Num : Type 0} (js : Setting Num) where
  abbrev pub java_loom_initial : JavaLoomState Num
  java_loom_initial = record {
    java_data = null;
    java_loading = false;
    pipeline_data = null;
    pipeline_loading = false;
    java_status = null;
  }

  unfoldable pub run_java : Async Num (JavaLoomState Num) (Unit {0})
  run_java =
      with_loading (λ b s. record s { java_loading = b }) (λ s. record s { java_data = null })
        (fetch_jsons_into (λ v s. record s { java_data = v })
          (api js (codes "/api/java/vthreads?n=50000" ∷ [])
            ∷ api js (codes "/api/java/compare?n=500" ∷ [])
            ∷ [])
          java_combine)
        (λ s. record s { java_data = error_value (codes "Java 서버 접속 불가 (:8010)") })

  unfoldable pub run_java_pipeline : Async Num (JavaLoomState Num) (Unit {0})
  run_java_pipeline =
      with_loading (λ b s. record s { pipeline_loading = b })
        (λ s. record s { pipeline_data = null })
        (fetch_json_into (λ v s. record s { pipeline_data = v })
          (api js (codes "/api/java/pipeline?n=1000&delay=10" ∷ [])))
        (λ s. record s { pipeline_data = error_value (codes "Java 서버 접속 불가 (:8010)") })

  unfoldable pub mount_java : Async Num (JavaLoomState Num) (Unit {0})
  unfolding try_catch
  mount_java =
      try_catch
        (fetch_if_ok (λ v s. record s { java_status = v }) (api js (codes "/api/java/status" ∷ [])))
        (λ m. assign (λ s. s))

  abbrev java_loom_flag_of : JavaLoomAction → Option ℕ
  java_loom_flag_of on_run_java = some 0
  java_loom_flag_of on_run_java_pipeline = some 1
  java_loom_flag_of on_mount_java = none

  -- The `disabled` attributes.
  abbrev pub java_loom_enabled : JavaLoomAction → JavaLoomState Num → Bool
  java_loom_enabled on_run_java s = not s.java_loading
  java_loom_enabled on_run_java_pipeline s = not s.pipeline_loading
  java_loom_enabled on_mount_java s = true

  abbrev java_loom_body : JavaLoomAction → Async Num (JavaLoomState Num) (Unit {0})
  java_loom_body on_run_java = run_java
  java_loom_body on_run_java_pipeline = run_java_pipeline
  java_loom_body on_mount_java = mount_java

  abbrev pub java_loom_flags : JavaLoomState Num → List Bool
  java_loom_flags s = s.java_loading ∷ s.pipeline_loading ∷ []

  abbrev pub java_loom_panel : Panel Num
  java_loom_panel = record {
    State = JavaLoomState Num;
    Action = JavaLoomAction;
    Edit = NoEdit;
    initial = java_loom_initial;
    flags = java_loom_flags;
    flag_of = java_loom_flag_of;
    enabled = java_loom_enabled;
    body = java_loom_body;
    edit = λ e s. s;
  }

  java_loom-disabled :
      (a : JavaLoomAction) (s : JavaLoomState Num)
      → java_loom_enabled a s ≡ true
      → IsDown (java_loom_flag_of a) (java_loom_flags s)
  java_loom-disabled on_run_java s e = (ground arith, omega arith)
  java_loom-disabled on_run_java_pipeline s e = (ground arith, omega arith)
  java_loom-disabled on_mount_java s e = tt

  java_loom-Starts :
      (a : JavaLoomAction) → Starts java_loom_flags (java_loom_flag_of a) (java_loom_body a)
  unfolding run_java run_java_pipeline mount_java
  java_loom-Starts on_run_java =
      with_loading-Starts Num java_loom_flags 0 _ _ _ _ (λ b s. refl) (λ s. refl)
        (fetch_jsons_into-IsQuiet Num java_loom_flags _ _ _ (λ v s. refl)) (λ s. refl)
  java_loom-Starts on_run_java_pipeline =
      with_loading-Starts Num java_loom_flags 1 _ _ _ _ (λ b s. refl) (λ s. refl)
        (fetch_json_into-IsQuiet Num java_loom_flags _ _ (λ v s. refl)) (λ s. refl)
  java_loom-Starts on_mount_java =
      try_catch-IsCalm java_loom_flags _ _
        (fetch_if_ok-IsQuiet Num java_loom_flags _ _ (λ v s. refl))
        (λ m. assign-IsCalm Num java_loom_flags _ (λ s. refl))

  pub java_loom_panel-IsLawful : IsLawful java_loom_panel
  java_loom_panel-IsLawful = record {
    disabled = java_loom-disabled;
    idle = (refl, (refl, tt));
    edits = λ e s. refl;
    starts = java_loom-Starts;
  }
