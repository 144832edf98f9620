-- ===== src/Panels/OCaml.antt =====
-- portal-svelte/src/lib/components/panels/OCamlPanel.svelte: the risk engine in OCaml.
use polyglot_infinity.Prelude.{
  ℕ, ◌≡◌, refl, Bool, true, false, not, Option, some, List, [], ◌∷◌, arith, codes,
}
use polyglot_infinity.Js.Value.{Json, null, obj, read}
use polyglot_infinity.Js.Completion.{Completion, ok, throw, ◌>>=◌}
use polyglot_infinity.Js.Spread.{set_field, put_field, spread, read_index}
use polyglot_infinity.Js.Async.{Async, look}
use polyglot_infinity.Js.Async.Laws.{Keeps, look-IsQuiet}
use polyglot_infinity.Panels.Machine.{Panel}
use polyglot_infinity.Panels.Machine.Laws.{IsDown, Starts, IsLawful}
use polyglot_infinity.Panels.Setting.{Setting, api}
use polyglot_infinity.Panels.Shape.{error_value, with_loading, fetch_or, fetch_all_or}
use polyglot_infinity.Panels.Shape.Laws.{
  with_loading-Starts, fetch_or-IsQuiet, fetch_all_or-IsQuiet,
}

module _ {Num : Type 0} where
  -- What `runOcamlRisk` makes of the two bodies.
  unfoldable pub ocaml_combine : List (Json Num) → Completion (Json Num)
  unfolding put_field set_field spread read read_index
  ocaml_combine (risk ∷ score ∷ []) = do
    v0 ← read score (codes "grade")
    v1 ← read score (codes "score")
    v2 ← read score (codes "prob_good")
    ok (
        obj (
          put_field (codes "prob_good") v2 (
            put_field (codes "credit_score_model") v1
              (put_field (codes "credit_grade") v0 (spread risk)))))
  ocaml_combine _ = throw []

pub record OCamlState (Num : Type 0) : Type 0 where
  pub ocaml_risk : Json Num
  pub ocaml_loading : Bool
  pub score_data : Json Num
  pub score_loading : Bool
  pub portfolio_data : Json Num
  pub portfolio_loading : Bool
  pub income : Num
  pub debt : Num
  pub history_years : Num
  pub missed_payments : Num

-- The buttons.
pub data OCamlAction : Type 0 where
  on_run_ocaml_risk on_fetch_score on_run_ocaml_portfolio : OCamlAction

-- The bound inputs.
pub data OCamlEdit (Num : Type 0) : Type 0 where
  bind_income : Num → OCamlEdit Num
  bind_debt : Num → OCamlEdit Num
  bind_history_years : Num → OCamlEdit Num
  bind_missed_payments : Num → OCamlEdit Num

module _ {Num : Type 0} (js : Setting Num) where
  abbrev pub ocaml_initial : OCamlState Num
  ocaml_initial = record {
    ocaml_risk = null;
    ocaml_loading = false;
    score_data = null;
    score_loading = false;
    portfolio_data = null;
    portfolio_loading = false;
    income = js.literal (codes "5000000");
    debt = js.literal (codes "2000000");
    history_years = js.literal (codes "3");
    missed_payments = js.literal (codes "1");
  }

  unfoldable pub run_ocaml_risk : Async Num (OCamlState Num) (Unit {0})
  run_ocaml_risk =
      with_loading (λ b s. record s { ocaml_loading = b }) (λ s. record s { ocaml_risk = null })
        (fetch_all_or (λ v s. record s { ocaml_risk = v })
          (api js (
              codes "/api/ocaml/risk?debt_ratio=0.75&volatility=0.28&leverage=3.5&credit_score=650"
              ∷ [])
            ∷ api js (
                codes
                  "/api/ocaml/score?income=5000000&debt=2000000&history_years=3&missed_payments=1"
                ∷ [])
            ∷ [])
          ocaml_combine (codes "OCaml 리스크 엔진 오프라인"))
        (λ s. record s { ocaml_risk = error_value (codes "OCaml 엔진 접속 불가 (:8004)") })

  unfoldable pub fetch_score : Async Num (OCamlState Num) (Unit {0})
  fetch_score =
      with_loading (λ b s. record s { score_loading = b }) (λ s. record s { score_data = null })
        (look (λ s.
          fetch_or (λ v s. record s { score_data = v })
            (api js (
              codes "/api/ocaml/score?income="
              ∷ js.show s.income
              ∷ codes "&debt="
              ∷ js.show s.debt
              ∷ codes "&history_years="
              ∷ js.show s.history_years
              ∷ codes "&missed_payments="
              ∷ js.show s.missed_payments
              ∷ []))
            (codes "OCaml 스코어 오프라인")))
        (λ s. record s { score_data = error_value (codes "OCaml 엔진 접속 불가 (:8004)") })

  unfoldable pub run_ocaml_portfolio : Async Num (OCamlState Num) (Unit {0})
  run_ocaml_portfolio =
      with_loading (λ b s. record s { portfolio_loading = b })
        (λ s. record s { portfolio_data = null })
        (fetch_or (λ v s. record s { portfolio_data = v })
          (api js (codes "/api/ocaml/portfolio" ∷ [])) (codes "OCaml portfolio offline"))
        (λ s. record s { portfolio_data = error_value (codes "OCaml 엔진 접속 불가 (:8004)") })

  abbrev ocaml_flag_of : OCamlAction → Option ℕ
  ocaml_flag_of on_run_ocaml_risk = some 0
  ocaml_flag_of on_fetch_score = some 1
  ocaml_flag_of on_run_ocaml_portfolio = some 2

  -- The `disabled` attributes.
  abbrev pub ocaml_enabled : OCamlAction → OCamlState Num → Bool
  ocaml_enabled on_run_ocaml_risk s = not s.ocaml_loading
  ocaml_enabled on_fetch_score s = not s.score_loading
  ocaml_enabled on_run_ocaml_portfolio s = not s.portfolio_loading

  abbrev ocaml_body : OCamlAction → Async Num (OCamlState Num) (Unit {0})
  ocaml_body on_run_ocaml_risk = run_ocaml_risk
  ocaml_body on_fetch_score = fetch_score
  ocaml_body on_run_ocaml_portfolio = run_ocaml_portfolio

  abbrev ocaml_edit : OCamlEdit Num → OCamlState Num → OCamlState Num
  ocaml_edit (bind_income x) s = record s { income = x }
  ocaml_edit (bind_debt x) s = record s { debt = x }
  ocaml_edit (bind_history_years x) s = record s { history_years = x }
  ocaml_edit (bind_missed_payments x) s = record s { missed_payments = x }

  abbrev pub ocaml_flags : OCamlState Num → List Bool
  ocaml_flags s = s.ocaml_loading ∷ s.score_loading ∷ s.portfolio_loading ∷ []

  abbrev pub ocaml_panel : Panel Num
  ocaml_panel = record {
    State = OCamlState Num;
    Action = OCamlAction;
    Edit = OCamlEdit Num;
    initial = ocaml_initial;
    flags = ocaml_flags;
    flag_of = ocaml_flag_of;
    enabled = ocaml_enabled;
    body = ocaml_body;
    edit = ocaml_edit;
  }

  ocaml-disabled :
      (a : OCamlAction) (s : OCamlState Num)
      → ocaml_enabled a s ≡ true
      → IsDown (ocaml_flag_of a) (ocaml_flags s)
  ocaml-disabled on_run_ocaml_risk s e = (ground arith, omega arith)
  ocaml-disabled on_fetch_score s e = (ground arith, omega arith)
  ocaml-disabled on_run_ocaml_portfolio s e = (ground arith, omega arith)

  ocaml-edits : (e : OCamlEdit Num) → Keeps ocaml_flags (ocaml_edit e)
  ocaml-edits (bind_income x) s = refl
  ocaml-edits (bind_debt x) s = refl
  ocaml-edits (bind_history_years x) s = refl
  ocaml-edits (bind_missed_payments x) s = refl

  ocaml-Starts : (a : OCamlAction) → Starts ocaml_flags (ocaml_flag_of a) (ocaml_body a)
  unfolding run_ocaml_risk fetch_score run_ocaml_portfolio
  ocaml-Starts on_run_ocaml_risk =
      with_loading-Starts Num ocaml_flags 0 _ _ _ _ (λ b s. refl) (λ s. refl)
        (fetch_all_or-IsQuiet Num ocaml_flags _ _ _ _ (λ v s. refl)) (λ s. refl)
  ocaml-Starts on_fetch_score =
      with_loading-Starts Num ocaml_flags 1 _ _ _ _ (λ b s. refl) (λ s. refl)
        (look-IsQuiet ocaml_flags _ (λ s. fetch_or-IsQuiet Num ocaml_flags _ _ _ (λ v s. refl)))
        (λ s. refl)
  ocaml-Starts on_run_ocaml_portfolio =
      with_loading-Starts Num ocaml_flags 2 _ _ _ _ (λ b s. refl) (λ s. refl)
        (fetch_or-IsQuiet Num ocaml_flags _ _ _ (λ v s. refl)) (λ s. refl)

  pub ocaml_panel-IsLawful : IsLawful ocaml_panel
  ocaml_panel-IsLawful = record {
    disabled = ocaml-disabled;
    idle = (refl, (refl, (refl, tt)));
    edits = ocaml-edits;
    starts = ocaml-Starts;
  }
