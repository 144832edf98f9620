-- ===== src/Panels/V.antt =====
-- portal-svelte/src/lib/components/panels/VPanel.svelte: backtests of the V engine.
use polyglot_infinity.Prelude.{
  ℕ, ◌≡◌, refl, Bool, true, false, not, Option, some, List, [], ◌∷◌, arith, codes,
}
use polyglot_infinity.Js.Value.{Json, null, obj, read}
use polyglot_infinity.Js.Completion.{Completion, ok, throw}
use polyglot_infinity.Js.Spread.{set_field, put_field, spread, read_index}
use polyglot_infinity.Js.Async.{Async, look}
use polyglot_infinity.Js.Async.Laws.{Keeps, look-IsQuiet}
use polyglot_infinity.Panels.Machine.{Panel}
use polyglot_infinity.Panels.Machine.Laws.{IsDown, Starts, IsLawful}
use polyglot_infinity.Panels.Setting.{Setting, api}
use polyglot_infinity.Panels.Shape.{error_value, with_loading, fetch_jsons_into}
use polyglot_infinity.Panels.Shape.Laws.{with_loading-Starts, fetch_jsons_into-IsQuiet}

module _ {Num : Type 0} where
  -- What `runV` makes of the two bodies.
  unfoldable pub v_combine : List (Json Num) → Completion (Json Num)
  unfolding put_field set_field spread read read_index
  v_combine (bt ∷ st ∷ []) = ok (obj (put_field (codes "stress") (some st) (spread bt)))
  v_combine _ = throw []

pub record VState (Num : Type 0) : Type 0 where
  pub v_data : Json Num
  pub v_loading : Bool
  pub ticks : Num
  pub fast_period : Num
  pub slow_period : Num
  pub seed : Num

-- The buttons.
pub data VAction : Type 0 where
  on_run_v : VAction

-- The bound inputs.
pub data VEdit (Num : Type 0) : Type 0 where
  bind_ticks : Num → VEdit Num
  bind_fast_period : Num → VEdit Num
  bind_slow_period : Num → VEdit Num
  bind_seed : Num → VEdit Num

module _ {Num : Type 0} (js : Setting Num) where
  abbrev pub v_initial : VState Num
  v_initial = record {
    v_data = null;
    v_loading = false;
    ticks = js.literal (codes "100000");
    fast_period = js.literal (codes "20");
    slow_period = js.literal (codes "50");
    seed = js.literal (codes "42");
  }

  unfoldable pub run_v : Async Num (VState Num) (Unit {0})
  run_v =
      with_loading (λ b s. record s { v_loading = b }) (λ s. s)
        (look (λ s.
          fetch_jsons_into (λ v s. record s { v_data = v })
            (api js (
                codes "/api/v/backtest?ticks="
                ∷ js.show s.ticks
                ∷ codes "&fast="
                ∷ js.show s.fast_period
                ∷ codes "&slow="
                ∷ js.show s.slow_period
                ∷ codes "&seed="
                ∷ js.show s.seed
                ∷ [])
              ∷ api js (
                  codes "/api/v/stress?ticks="
                  ∷ js.show (js.round (js.times s.ticks (js.literal (codes "1.5"))))
                  ∷ codes "&seed="
                  ∷ js.show s.seed
                  ∷ [])
              ∷ [])
            v_combine))
        (λ s. record s { v_data = error_value (codes "V 서버 접속 불가 (:4002)") })

  abbrev v_flag_of : VAction → Option ℕ
  v_flag_of on_run_v = some 0

  -- The `disabled` attributes.
  abbrev pub v_enabled : VAction → VState Num → Bool
  v_enabled on_run_v s = not s.v_loading

  abbrev v_body : VAction → Async Num (VState Num) (Unit {0})
  v_body on_run_v = run_v

  abbrev v_edit : VEdit Num → VState Num → VState Num
  v_edit (bind_ticks x) s = record s { ticks = x }
  v_edit (bind_fast_period x) s = record s { fast_period = x }
  v_edit (bind_slow_period x) s = record s { slow_period = x }
  v_edit (bind_seed x) s = record s { seed = x }

  abbrev pub v_flags : VState Num → List Bool
  v_flags s = s.v_loading ∷ []

  abbrev pub v_panel : Panel Num
  v_panel = record {
    State = VState Num;
    Action = VAction;
    Edit = VEdit Num;
    initial = v_initial;
    flags = v_flags;
    flag_of = v_flag_of;
    enabled = v_enabled;
    body = v_body;
    edit = v_edit;
  }

  v-disabled :
      (a : VAction) (s : VState Num) → v_enabled a s ≡ true → IsDown (v_flag_of a) (v_flags s)
  v-disabled on_run_v s e = (ground arith, omega arith)

  v-edits : (e : VEdit Num) → Keeps v_flags (v_edit e)
  v-edits (bind_ticks x) s = refl
  v-edits (bind_fast_period x) s = refl
  v-edits (bind_slow_period x) s = refl
  v-edits (bind_seed x) s = refl

  v-Starts : (a : VAction) → Starts v_flags (v_flag_of a) (v_body a)
  unfolding run_v
  v-Starts on_run_v =
      with_loading-Starts Num v_flags 0 _ _ _ _ (λ b s. refl) (λ s. refl)
        (look-IsQuiet v_flags _ (λ s. fetch_jsons_into-IsQuiet Num v_flags _ _ _ (λ v s. refl)))
        (λ s. refl)

  pub v_panel-IsLawful : IsLawful v_panel
  v_panel-IsLawful = record {
    disabled = v-disabled;
    idle = (refl, tt);
    edits = v-edits;
    starts = v-Starts;
  }
