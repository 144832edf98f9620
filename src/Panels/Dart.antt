-- ===== src/Panels/Dart.antt =====
-- portal-svelte/src/lib/components/panels/DartPanel.svelte: bonds and yield curves of the Dart engine.
use polyglot_infinity.Prelude.{
  ℕ, ◌≡◌, refl, Bool, true, false, not, Option, some, List, [], ◌∷◌, arith, Text, codes,
}
use polyglot_infinity.Js.Value.{Json, null, str, arr, obj, read, items}
use polyglot_infinity.Js.Completion.{Completion, ok, throw, ◌>>=◌}
use polyglot_infinity.Js.Spread.{set_field, put_field, spread, read_index}
use polyglot_infinity.Js.Async.{Async, look}
use polyglot_infinity.Js.Async.Laws.{Keeps, look-IsQuiet}
use polyglot_infinity.Panels.Machine.{Panel}
use polyglot_infinity.Panels.Machine.Laws.{IsDown, Starts, IsLawful}
use polyglot_infinity.Panels.Setting.{Setting, api}
use polyglot_infinity.Panels.Shape.{error_value, with_loading, fetch_all_or, fetch_jsons_into}
use polyglot_infinity.Panels.Shape.Laws.{
  with_loading-Starts, fetch_all_or-IsQuiet, fetch_jsons_into-IsQuiet,
}

module _ {Num : Type 0} where
  -- What `runDart` makes of the two bodies.
  unfoldable pub dart_combine : List (Json Num) → Completion (Json Num)
  unfolding put_field set_field spread read read_index
  dart_combine (bond ∷ yc ∷ []) = do
    v0 ← read yc (codes "spread_10y_2y")
    v1 ← read yc (codes "curve_shape")
    yields ← read yc (codes "yields")
    short ← read_index yields 3
    again ← read yc (codes "yields")
    long ← read_index again 7
    ok (
        obj (
          put_field (codes "y10y") long (
            put_field (codes "y2y") short (
              put_field (codes "curve_shape") v1
                (put_field (codes "spread_10y_2y") v0 (spread bond))))))
  dart_combine _ = throw []

module _ {Num : Type 0} where
  unfoldable pub with_labels : List Text → List (Json Num) → List (Json Num)
  unfolding set_field spread
  with_labels [] vs = []
  with_labels (l ∷ ls) [] = []
  with_labels (l ∷ ls) (v ∷ vs) =
      obj (set_field (codes "label") (str l) (spread v)) ∷ with_labels ls vs

  -- What `runScenarios` makes of the bodies.
  unfoldable pub scenarios_combine : List (Json Num) → Completion (Json Num)
  unfolding with_labels
  scenarios_combine vs = ok (
      arr (
        items (
          with_labels (codes "Bull (YTM 3%)" ∷ codes "Base (YTM 6%)" ∷ codes "Bear (YTM 10%)" ∷ [])
            vs)))

pub record DartState (Num : Type 0) : Type 0 where
  pub dart_data : Json Num
  pub dart_loading : Bool
  pub scenarios : Json Num
  pub scenario_loading : Bool
  pub bond_years : Num
  pub bond_coupon : Num

-- The buttons.
pub data DartAction : Type 0 where
  on_run_dart on_run_scenarios : DartAction

-- The bound inputs.
pub data DartEdit (Num : Type 0) : Type 0 where
  bind_bond_years : Num → DartEdit Num
  bind_bond_coupon : Num → DartEdit Num

module _ {Num : Type 0} (js : Setting Num) where
  abbrev pub dart_initial : DartState Num
  dart_initial = record {
    dart_data = null;
    dart_loading = false;
    scenarios = null;
    scenario_loading = false;
    bond_years = js.literal (codes "10");
    bond_coupon = js.literal (codes "0.05");
  }

  unfoldable pub run_dart : Async Num (DartState Num) (Unit {0})
  run_dart =
      with_loading (λ b s. record s { dart_loading = b }) (λ s. record s { dart_data = null })
        (fetch_all_or (λ v s. record s { dart_data = v })
          (api js (codes "/api/dart/bond?face=1000&coupon=0.05&ytm=0.06&years=10" ∷ [])
            ∷ api js (codes "/api/dart/yieldcurve" ∷ [])
            ∷ [])
          dart_combine (codes "Dart 엔진 오프라인"))
        (λ s. record s { dart_data = error_value (codes "Dart 서버 접속 불가 (:9005)") })

  unfoldable pub run_scenarios : Async Num (DartState Num) (Unit {0})
  run_scenarios =
      with_loading (λ b s. record s { scenario_loading = b }) (λ s. record s { scenarios = null })
        (look (λ s.
          fetch_jsons_into (λ v s. record s { scenarios = v })
            (api js (
                codes "/api/dart/bond?face=1000&coupon="
                ∷ js.show s.bond_coupon
                ∷ codes "&ytm="
                ∷ js.show (js.literal (codes "0.03"))
                ∷ codes "&years="
                ∷ js.show s.bond_years
                ∷ [])
              ∷ api js (
                  codes "/api/dart/bond?face=1000&coupon="
                  ∷ js.show s.bond_coupon
                  ∷ codes "&ytm="
                  ∷ js.show (js.literal (codes "0.06"))
                  ∷ codes "&years="
                  ∷ js.show s.bond_years
                  ∷ [])
              ∷ api js (
                  codes "/api/dart/bond?face=1000&coupon="
                  ∷ js.show s.bond_coupon
                  ∷ codes "&ytm="
                  ∷ js.show (js.literal (codes "0.1"))
                  ∷ codes "&years="
                  ∷ js.show s.bond_years
                  ∷ [])
              ∷ [])
            scenarios_combine))
        (λ s. record s {
          scenarios = arr (items (error_value (codes "Dart 서버 접속 불가 (:9005)") ∷ []));
        })

  abbrev dart_flag_of : DartAction → Option ℕ
  dart_flag_of on_run_dart = some 0
  dart_flag_of on_run_scenarios = some 1

  -- The `disabled` attributes.
  abbrev pub dart_enabled : DartAction → DartState Num → Bool
  dart_enabled on_run_dart s = not s.dart_loading
  dart_enabled on_run_scenarios s = not s.scenario_loading

  abbrev dart_body : DartAction → Async Num (DartState Num) (Unit {0})
  dart_body on_run_dart = run_dart
  dart_body on_run_scenarios = run_scenarios

  abbrev dart_edit : DartEdit Num → DartState Num → DartState Num
  dart_edit (bind_bond_years x) s = record s { bond_years = x }
  dart_edit (bind_bond_coupon x) s = record s { bond_coupon = x }

  abbrev pub dart_flags : DartState Num → List Bool
  dart_flags s = s.dart_loading ∷ s.scenario_loading ∷ []

  abbrev pub dart_panel : Panel Num
  dart_panel = record {
    State = DartState Num;
    Action = DartAction;
    Edit = DartEdit Num;
    initial = dart_initial;
    flags = dart_flags;
    flag_of = dart_flag_of;
    enabled = dart_enabled;
    body = dart_body;
    edit = dart_edit;
  }

  dart-disabled :
      (a : DartAction) (s : DartState Num)
      → dart_enabled a s ≡ true
      → IsDown (dart_flag_of a) (dart_flags s)
  dart-disabled on_run_dart s e = (ground arith, omega arith)
  dart-disabled on_run_scenarios s e = (ground arith, omega arith)

  dart-edits : (e : DartEdit Num) → Keeps dart_flags (dart_edit e)
  dart-edits (bind_bond_years x) s = refl
  dart-edits (bind_bond_coupon x) s = refl

  dart-Starts : (a : DartAction) → Starts dart_flags (dart_flag_of a) (dart_body a)
  unfolding run_dart run_scenarios
  dart-Starts on_run_dart =
      with_loading-Starts Num dart_flags 0 _ _ _ _ (λ b s. refl) (λ s. refl)
        (fetch_all_or-IsQuiet Num dart_flags _ _ _ _ (λ v s. refl)) (λ s. refl)
  dart-Starts on_run_scenarios =
      with_loading-Starts Num dart_flags 1 _ _ _ _ (λ b s. refl) (λ s. refl)
        (look-IsQuiet dart_flags _
          (λ s. fetch_jsons_into-IsQuiet Num dart_flags _ _ _ (λ v s. refl)))
        (λ s. refl)

  pub dart_panel-IsLawful : IsLawful dart_panel
  dart_panel-IsLawful = record {
    disabled = dart-disabled;
    idle = (refl, (refl, tt));
    edits = dart-edits;
    starts = dart-Starts;
  }
