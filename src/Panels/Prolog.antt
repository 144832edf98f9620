-- ===== src/Panels/Prolog.antt =====
-- portal-svelte/src/lib/components/panels/PrologPanel.svelte: the logic solver in Prolog.
use polyglot_infinity.Prelude.{
  ℕ, ◌≡◌, refl, Bool, true, false, not, Option, some, List, [], ◌∷◌, if◌then◌else◌, arith, Text,
  text_eq, codes,
}
use polyglot_infinity.Js.Value.{Json, null}
use polyglot_infinity.Js.Async.{Async, look, bind, assign, fetch_jsons}
use polyglot_infinity.Js.Async.Laws.{Keeps, look-IsQuiet, bind-IsQuiet, assign-IsQuiet}
use polyglot_infinity.Panels.Machine.{Panel}
use polyglot_infinity.Panels.Machine.Laws.{IsDown, Starts, IsLawful}
use polyglot_infinity.Panels.Setting.{Setting, api}
use polyglot_infinity.Panels.Shape.{error_value, with_loading, fetch_json_into}
use polyglot_infinity.Panels.Shape.Laws.{
  with_loading-Starts, fetch_json_into-IsQuiet, jsons-IsQuiet,
}

pub record PrologState (Num : Type 0) : Type 0 where
  pub status_data : Json Num
  pub infer_data : Json Num
  pub portfolio_data : Json Num
  pub explain_data : Json Num
  pub loading : Bool
  pub explain_loading : Bool
  pub portfolio_type : Text
  pub risk_max : Num
  pub debt_ratio : Num
  pub volatility : Num
  pub defaults : Num

-- The buttons.
pub data PrologAction : Type 0 where
  on_run_all on_run_prolog_portfolio on_fetch_explain : PrologAction

-- The bound inputs.
pub data PrologEdit (Num : Type 0) : Type 0 where
  bind_portfolio_type : Text → PrologEdit Num
  bind_risk_max : Num → PrologEdit Num
  bind_debt_ratio : Num → PrologEdit Num
  bind_volatility : Num → PrologEdit Num
  bind_defaults : Num → PrologEdit Num

module _ {Num : Type 0} (js : Setting Num) where
  abbrev pub prolog_initial : PrologState Num
  prolog_initial = record {
    status_data = null;
    infer_data = null;
    portfolio_data = null;
    explain_data = null;
    loading = false;
    explain_loading = false;
    portfolio_type = codes "balanced";
    risk_max = js.literal (codes "12");
    debt_ratio = js.literal (codes "0.45");
    volatility = js.literal (codes "0.22");
    defaults = js.literal (codes "1");
  }

  -- The four variables that `runAll` assigns to.
  abbrev pub prolog_results : List (Json Num) → PrologState Num → PrologState Num
  prolog_results (status ∷ infer ∷ portfolio ∷ explain ∷ []) s = record s {
    status_data = status;
    infer_data = infer;
    portfolio_data = portfolio;
    explain_data = explain;
  }
  prolog_results _ s = s

  -- The colour of a grade; the names of the prototype of objects aside.
  abbrev pub grade_color : Text → Text
  grade_color g =
      let low = js.to_lower_case g in
      if text_eq low (codes "low")
      then codes "#22c55e"
      else if text_eq low (codes "medium")
      then codes "#f59e0b"
      else if text_eq low (codes "high")
      then codes "#f97316"
      else if text_eq low (codes "critical")
      then codes "#ef4444"
      else codes "#94a3b8"

  unfoldable pub run_all : Async Num (PrologState Num) (Unit {0})
  run_all =
      with_loading (λ b s. record s { loading = b }) (λ s. s)
        (look (λ s.
          bind
            (fetch_jsons (
              api js (codes "/api/prolog/status" ∷ [])
              ∷ api js (
                  codes "/api/prolog/infer?debt="
                  ∷ js.show s.debt_ratio
                  ∷ codes "&vol="
                  ∷ js.show s.volatility
                  ∷ codes "&defaults="
                  ∷ js.show s.defaults
                  ∷ [])
              ∷ api js (
                  codes "/api/prolog/portfolio?type="
                  ∷ s.portfolio_type
                  ∷ codes "&risk_max="
                  ∷ js.show s.risk_max
                  ∷ [])
              ∷ api js (
                  codes "/api/prolog/explain?debt="
                  ∷ js.show s.debt_ratio
                  ∷ codes "&vol="
                  ∷ js.show s.volatility
                  ∷ codes "&defaults="
                  ∷ js.show s.defaults
                  ∷ [])
              ∷ []))
            (λ vs. assign (prolog_results vs))))
        (λ s. record s { infer_data = error_value (codes "Prolog 서버 접속 불가 (:8011)") })

  unfoldable pub run_prolog_portfolio : Async Num (PrologState Num) (Unit {0})
  run_prolog_portfolio =
      with_loading (λ b s. record s { loading = b }) (λ s. s)
        (look (λ s.
          fetch_json_into (λ v s. record s { portfolio_data = v })
            (api js (
              codes "/api/prolog/portfolio?type="
              ∷ s.portfolio_type
              ∷ codes "&risk_max="
              ∷ js.show s.risk_max
              ∷ []))))
        (λ s. record s { portfolio_data = error_value (codes "포트폴리오 탐색 실패") })

  unfoldable pub fetch_explain : Async Num (PrologState Num) (Unit {0})
  fetch_explain =
      with_loading (λ b s. record s { explain_loading = b }) (λ s. record s { explain_data = null })
        (look (λ s.
          fetch_json_into (λ v s. record s { explain_data = v })
            (api js (
              codes "/api/prolog/explain?debt="
              ∷ js.show s.debt_ratio
              ∷ codes "&vol="
              ∷ js.show s.volatility
              ∷ codes "&defaults="
              ∷ js.show s.defaults
              ∷ []))))
        (λ s. record s { explain_data = error_value (codes "Prolog 서버 접속 불가 (:8011)") })

  abbrev prolog_flag_of : PrologAction → Option ℕ
  prolog_flag_of on_run_all = some 0
  prolog_flag_of on_run_prolog_portfolio = some 0
  prolog_flag_of on_fetch_explain = some 1

  -- The `disabled` attributes.
  abbrev pub prolog_enabled : PrologAction → PrologState Num → Bool
  prolog_enabled on_run_all s = not s.loading
  prolog_enabled on_run_prolog_portfolio s = false
  prolog_enabled on_fetch_explain s = not s.explain_loading

  abbrev prolog_body : PrologAction → Async Num (PrologState Num) (Unit {0})
  prolog_body on_run_all = run_all
  prolog_body on_run_prolog_portfolio = run_prolog_portfolio
  prolog_body on_fetch_explain = fetch_explain

  abbrev prolog_edit : PrologEdit Num → PrologState Num → PrologState Num
  prolog_edit (bind_portfolio_type x) s = record s { portfolio_type = x }
  prolog_edit (bind_risk_max x) s = record s { risk_max = x }
  prolog_edit (bind_debt_ratio x) s = record s { debt_ratio = x }
  prolog_edit (bind_volatility x) s = record s { volatility = x }
  prolog_edit (bind_defaults x) s = record s { defaults = x }

  abbrev pub prolog_flags : PrologState Num → List Bool
  prolog_flags s = s.loading ∷ s.explain_loading ∷ []

  abbrev pub prolog_panel : Panel Num
  prolog_panel = record {
    State = PrologState Num;
    Action = PrologAction;
    Edit = PrologEdit Num;
    initial = prolog_initial;
    flags = prolog_flags;
    flag_of = prolog_flag_of;
    enabled = prolog_enabled;
    body = prolog_body;
    edit = prolog_edit;
  }

  prolog_results-Keeps : (vs : List (Json Num)) → Keeps prolog_flags (prolog_results vs)
  prolog_results-Keeps [] s = refl
  prolog_results-Keeps (a ∷ []) s = refl
  prolog_results-Keeps (a ∷ b ∷ []) s = refl
  prolog_results-Keeps (a ∷ b ∷ c ∷ []) s = refl
  prolog_results-Keeps (a ∷ b ∷ c ∷ d ∷ []) s = refl
  prolog_results-Keeps (a ∷ b ∷ c ∷ d ∷ e ∷ vs) s = refl

  prolog-disabled :
      (a : PrologAction) (s : PrologState Num)
      → prolog_enabled a s ≡ true
      → IsDown (prolog_flag_of a) (prolog_flags s)
  prolog-disabled on_run_all s e = (ground arith, omega arith)
  prolog-disabled on_run_prolog_portfolio s e = (ground arith, omega arith)
  prolog-disabled on_fetch_explain s e = (ground arith, omega arith)

  prolog-edits : (e : PrologEdit Num) → Keeps prolog_flags (prolog_edit e)
  prolog-edits (bind_portfolio_type x) s = refl
  prolog-edits (bind_risk_max x) s = refl
  prolog-edits (bind_debt_ratio x) s = refl
  prolog-edits (bind_volatility x) s = refl
  prolog-edits (bind_defaults x) s = refl

  prolog-Starts : (a : PrologAction) → Starts prolog_flags (prolog_flag_of a) (prolog_body a)
  unfolding run_all run_prolog_portfolio fetch_explain
  prolog-Starts on_run_all =
      with_loading-Starts Num prolog_flags 0 _ _ _ _ (λ b s. refl) (λ s. refl)
        (look-IsQuiet prolog_flags _ (λ s.
          bind-IsQuiet prolog_flags _ _ (jsons-IsQuiet Num prolog_flags _)
            (λ vs. assign-IsQuiet Num prolog_flags _ (prolog_results-Keeps vs))))
        (λ s. refl)
  prolog-Starts on_run_prolog_portfolio =
      with_loading-Starts Num prolog_flags 0 _ _ _ _ (λ b s. refl) (λ s. refl)
        (look-IsQuiet prolog_flags _
          (λ s. fetch_json_into-IsQuiet Num prolog_flags _ _ (λ v s. refl)))
        (λ s. refl)
  prolog-Starts on_fetch_explain =
      with_loading-Starts Num prolog_flags 1 _ _ _ _ (λ b s. refl) (λ s. refl)
        (look-IsQuiet prolog_flags _
          (λ s. fetch_json_into-IsQuiet Num prolog_flags _ _ (λ v s. refl)))
        (λ s. refl)

  pub prolog_panel-IsLawful : IsLawful prolog_panel
  prolog_panel-IsLawful = record {
    disabled = prolog-disabled;
    idle = (refl, (refl, tt));
    edits = prolog-edits;
    starts = prolog-Starts;
  }
