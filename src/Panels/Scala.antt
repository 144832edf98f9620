-- ===== src/Panels/Scala.antt =====
-- portal-svelte/src/lib/components/panels/ScalaPanel.svelte: the stream aggregates of the Scala service.
use polyglot_infinity.Prelude.{
  ℕ, ◌≡◌, refl, Bool, true, false, not, Option, some, List, [], ◌∷◌, arith, codes,
}
use polyglot_infinity.Js.Value.{Json, null, obj, read}
use polyglot_infinity.Js.Completion.{Completion, ok, throw, ◌>>=◌}
use polyglot_infinity.Js.Spread.{set_field, put_field, spread, read_index}
use polyglot_infinity.Js.Async.{Async}
use polyglot_infinity.Panels.Machine.{Panel, NoEdit}
use polyglot_infinity.Panels.Machine.Laws.{IsDown, Starts, IsLawful}
use polyglot_infinity.Panels.Setting.{Setting, api}
use polyglot_infinity.Panels.Shape.{error_value, with_loading, fetch_all_or}
use polyglot_infinity.Panels.Shape.Laws.{with_loading-Starts, fetch_all_or-IsQuiet}

module _ {Num : Type 0} where
  -- What `runScala` makes of the three bodies.
  unfoldable pub scala_combine : List (Json Num) → Completion (Json Num)
  unfolding put_field set_field spread read read_index
  scala_combine (agg ∷ sm ∷ stream ∷ []) = do
    v0 ← read sm (codes "forecast_next")
    v1 ← read sm (codes "alpha")
    v2 ← read sm (codes "beta")
    ok (
        obj (
          put_field (codes "stream") (some stream) (
            put_field (codes "beta") v2
              (put_field (codes "alpha") v1 (put_field (codes "forecast_next") v0 (spread agg))))))
  scala_combine _ = throw []

pub record ScalaState (Num : Type 0) : Type 0 where
  pub scala_data : Json Num
  pub scala_loading : Bool

-- The buttons.
pub data ScalaAction : Type 0 where
  on_run_scala : ScalaAction

module _ {Num : Type 0} (js : Setting Num) where
  abbrev pub scala_initial : ScalaState Num
  scala_initial = record { scala_data = null; scala_loading = false }

  unfoldable pub run_scala : Async Num (ScalaState Num) (Unit {0})
  run_scala =
      with_loading (λ b s. record s { scala_loading = b }) (λ s. record s { scala_data = null })
        (fetch_all_or (λ v s. record s { scala_data = v })
          (api js (codes "/api/scala/aggregate?mu=0.08&sigma=0.15&n=252" ∷ [])
            ∷ api js (codes "/api/scala/smooth?mu=0.08&sigma=0.15&n=252&alpha=0.3&beta=0.1" ∷ [])
            ∷ api js (codes "/api/scala/stream?mu=0.08&sigma=0.22&n=300&seed=7" ∷ [])
            ∷ [])
          scala_combine (codes "Scala 스트리머 오프라인"))
        (λ s. record s { scala_data = error_value (codes "Scala 서버 접속 불가 (:9003)") })

  abbrev scala_flag_of : ScalaAction → Option ℕ
  scala_flag_of on_run_scala = some 0

  -- The `disabled` attributes.
  abbrev pub scala_enabled : ScalaAction → ScalaState Num → Bool
  scala_enabled on_run_scala s = not s.scala_loading

  abbrev scala_body : ScalaAction → Async Num (ScalaState Num) (Unit {0})
  scala_body on_run_scala = run_scala

  abbrev pub scala_flags : ScalaState Num → List Bool
  scala_flags s = s.scala_loading ∷ []

  abbrev pub scala_panel : Panel Num
  scala_panel = record {
    State = ScalaState Num;
    Action = ScalaAction;
    Edit = NoEdit;
    initial = scala_initial;
    flags = scala_flags;
    flag_of = scala_flag_of;
    enabled = scala_enabled;
    body = scala_body;
    edit = λ e s. s;
  }

  scala-disabled :
      (a : ScalaAction) (s : ScalaState Num)
      → scala_enabled a s ≡ true
      → IsDown (scala_flag_of a) (scala_flags s)
  scala-disabled on_run_scala s e = (ground arith, omega arith)

  scala-Starts : (a : ScalaAction) → Starts scala_flags (scala_flag_of a) (scala_body a)
  unfolding run_scala
  scala-Starts on_run_scala =
      with_loading-Starts Num scala_flags 0 _ _ _ _ (λ b s. refl) (λ s. refl)
        (fetch_all_or-IsQuiet Num scala_flags _ _ _ _ (λ v s. refl)) (λ s. refl)

  pub scala_panel-IsLawful : IsLawful scala_panel
  scala_panel-IsLawful = record {
    disabled = scala-disabled;
    idle = (refl, tt);
    edits = λ e s. refl;
    starts = scala-Starts;
  }
