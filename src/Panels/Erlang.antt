-- ===== src/Panels/Erlang.antt =====
-- portal-svelte/src/lib/components/panels/ErlangPanel.svelte: hot code reloading in the Erlang service.
use polyglot_infinity.Prelude.{
  ℕ, ◌≡◌, refl, Bool, true, false, not, Option, some, List, [], ◌∷◌, if◌then◌else◌, arith, Text,
  codes,
}
use polyglot_infinity.Js.Value.{Json, null, obj, read}
use polyglot_infinity.Js.Completion.{Completion, ok, throw}
use polyglot_infinity.Js.Spread.{set_field, put_field, spread, read_index}
use polyglot_infinity.Js.Async.{Async, look, bind, assign, fetch_json, fetch_jsons}
use polyglot_infinity.Js.Async.Laws.{Keeps, look-IsQuiet, bind-IsQuiet, assign-IsQuiet}
use polyglot_infinity.Panels.Machine.{Panel}
use polyglot_infinity.Panels.Machine.Laws.{IsDown, Starts, IsLawful}
use polyglot_infinity.Panels.Setting.{Setting, api}
use polyglot_infinity.Panels.Shape.{error_value, with_loading, value_of, fetch_json_into}
use polyglot_infinity.Panels.Shape.Laws.{
  with_loading-Starts, fetch_json_into-IsQuiet, fetch_json-IsQuiet, jsons-IsQuiet, value_of-IsQuiet,
}

module _ {Num : Type 0} where
  -- What `runErlang` makes of the bodies, the second one of the risk first.
  unfoldable pub erlang_combine : Json Num → List (Json Num) → Completion (Json Num)
  unfolding put_field set_field spread read read_index
  erlang_combine again (status ∷ swap ∷ before ∷ []) = ok (
      obj (
        put_field (codes "riskAfter") (some again) (
          put_field (codes "riskBefore") (some before)
            (put_field (codes "swap") (some swap) (spread status)))))
  erlang_combine again _ = throw []

pub record ErlangState (Num : Type 0) : Type 0 where
  pub erlang_data : Json Num
  pub erlang_loading : Bool
  pub risk_data : Json Num
  pub risk_loading : Bool
  pub risk_debt : Num
  pub risk_vol : Num

-- The buttons.
pub data ErlangAction : Type 0 where
  on_run_erlang on_fetch_risk : ErlangAction

-- The bound inputs.
pub data ErlangEdit (Num : Type 0) : Type 0 where
  bind_risk_debt : Num → ErlangEdit Num
  bind_risk_vol : Num → ErlangEdit Num

module _ {Num : Type 0} (js : Setting Num) where
  abbrev pub erlang_initial : ErlangState Num
  erlang_initial = record {
    erlang_data = null;
    erlang_loading = false;
    risk_data = null;
    risk_loading = false;
    risk_debt = js.literal (codes "0.65");
    risk_vol = js.literal (codes "0.28");
  }

  -- The colour of a risk score.
  abbrev pub grade_color : Num → Text
  grade_color score =
      if js.less score (js.literal (codes "0.2"))
      then codes "#34d399"
      else if js.less score (js.literal (codes "0.35"))
      then codes "#86efac"
      else if js.less score (js.literal (codes "0.5"))
      then codes "#fbbf24"
      else if js.less score (js.literal (codes "0.65"))
      then codes "#f97316"
      else codes "#f87171"

  unfoldable pub run_erlang : Async Num (ErlangState Num) (Unit {0})
  run_erlang =
      with_loading (λ b s. record s { erlang_loading = b }) (λ s. s)
        (bind
          (fetch_jsons (
            api js (codes "/api/erlang/status" ∷ [])
            ∷ api js (codes "/api/erlang/hotswap" ∷ [])
            ∷ api js (codes "/api/erlang/risk?debt=0.65&vol=0.28" ∷ [])
            ∷ []))
          (λ vs.
            bind (fetch_json (api js (codes "/api/erlang/risk?debt=0.65&vol=0.28" ∷ []))) (λ again.
              bind (value_of (erlang_combine again vs))
                (λ v. assign (λ s. record s { erlang_data = v })))))
        (λ s. record s { erlang_data = error_value (codes "Erlang 서버 접속 불가 (:4003)") })

  unfoldable pub fetch_risk : Async Num (ErlangState Num) (Unit {0})
  fetch_risk =
      with_loading (λ b s. record s { risk_loading = b }) (λ s. record s { risk_data = null })
        (look (λ s.
          fetch_json_into (λ v s. record s { risk_data = v })
            (api js (
              codes "/api/erlang/risk?debt="
              ∷ js.to_fixed 2 s.risk_debt
              ∷ codes "&vol="
              ∷ js.to_fixed 2 s.risk_vol
              ∷ []))))
        (λ s. record s { risk_data = error_value (codes "Erlang 서버 접속 불가 (:4003)") })

  abbrev erlang_flag_of : ErlangAction → Option ℕ
  erlang_flag_of on_run_erlang = some 0
  erlang_flag_of on_fetch_risk = some 1

  -- The `disabled` attributes.
  abbrev pub erlang_enabled : ErlangAction → ErlangState Num → Bool
  erlang_enabled on_run_erlang s = not s.erlang_loading
  erlang_enabled on_fetch_risk s = not s.risk_loading

  abbrev erlang_body : ErlangAction → Async Num (ErlangState Num) (Unit {0})
  erlang_body on_run_erlang = run_erlang
  erlang_body on_fetch_risk = fetch_risk

  abbrev erlang_edit : ErlangEdit Num → ErlangState Num → ErlangState Num
  erlang_edit (bind_risk_debt x) s = record s { risk_debt = x }
  erlang_edit (bind_risk_vol x) s = record s { risk_vol = x }

  abbrev pub erlang_flags : ErlangState Num → List Bool
  erlang_flags s = s.erlang_loading ∷ s.risk_loading ∷ []

  abbrev pub erlang_panel : Panel Num
  erlang_panel = record {
    State = ErlangState Num;
    Action = ErlangAction;
    Edit = ErlangEdit Num;
    initial = erlang_initial;
    flags = erlang_flags;
    flag_of = erlang_flag_of;
    enabled = erlang_enabled;
    body = erlang_body;
    edit = erlang_edit;
  }

  erlang-disabled :
      (a : ErlangAction) (s : ErlangState Num)
      → erlang_enabled a s ≡ true
      → IsDown (erlang_flag_of a) (erlang_flags s)
  erlang-disabled on_run_erlang s e = (ground arith, omega arith)
  erlang-disabled on_fetch_risk s e = (ground arith, omega arith)

  erlang-edits : (e : ErlangEdit Num) → Keeps erlang_flags (erlang_edit e)
  erlang-edits (bind_risk_debt x) s = refl
  erlang-edits (bind_risk_vol x) s = refl

  erlang-Starts : (a : ErlangAction) → Starts erlang_flags (erlang_flag_of a) (erlang_body a)
  unfolding run_erlang fetch_risk
  erlang-Starts on_run_erlang =
      with_loading-Starts Num erlang_flags 0 _ _ _ _ (λ b s. refl) (λ s. refl)
        (bind-IsQuiet erlang_flags _ _ (jsons-IsQuiet Num erlang_flags _) (λ vs.
          bind-IsQuiet erlang_flags _ _ (fetch_json-IsQuiet Num erlang_flags _) (λ again.
            bind-IsQuiet erlang_flags _ _
              (value_of-IsQuiet Num erlang_flags (erlang_combine again vs))
              (λ v. assign-IsQuiet Num erlang_flags _ (λ s. refl)))))
        (λ s. refl)
  erlang-Starts on_fetch_risk =
      with_loading-Starts Num erlang_flags 1 _ _ _ _ (λ b s. refl) (λ s. refl)
        (look-IsQuiet erlang_flags _
          (λ s. fetch_json_into-IsQuiet Num erlang_flags _ _ (λ v s. refl)))
        (λ s. refl)

  pub erlang_panel-IsLawful : IsLawful erlang_panel
  erlang_panel-IsLawful = record {
    disabled = erlang-disabled;
    idle = (refl, (refl, tt));
    edits = erlang-edits;
    starts = erlang-Starts;
  }
