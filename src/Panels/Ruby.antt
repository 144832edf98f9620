-- ===== src/Panels/Ruby.antt =====
-- portal-svelte/src/lib/components/panels/RubyPanel.svelte: the rule engine in Ruby. Loading a rule runs the scores as well, whether their button is disabled or not.
use polyglot_infinity.Prelude.{
  ℕ, Bool, false, not, Option, none, some, List, [], ◌∷◌, if◌then◌else◌, Text, codes,
}
use polyglot_infinity.Js.Value.{Json, null, bool, str, obj, end, field, read, truthy}
use polyglot_infinity.Js.Completion.{Completion, ok, throw}
use polyglot_infinity.Js.Spread.{set_field, put_field, spread, read_index, maybe_read}
use polyglot_infinity.Js.Async.{Call, Async, ret, look, bind, assign, fetch, json}
use polyglot_infinity.Panels.Machine.{Panel}
use polyglot_infinity.Panels.Setting.{Setting, api}
use polyglot_infinity.Panels.Shape.{error_value, with_loading, fetch_all_or}

module _ {Num : Type 0} where
  -- What `runRuby` makes of the three bodies.
  unfoldable pub ruby_combine : List (Json Num) → Completion (Json Num)
  unfolding put_field set_field spread read read_index
  ruby_combine (score ∷ rule_set ∷ eval_result ∷ []) = ok (
      obj (
        put_field (codes "evalResult") (some eval_result)
          (put_field (codes "ruleset") (some rule_set) (spread score))))
  ruby_combine _ = throw []

pub record RubyState (Num : Type 0) : Type 0 where
  pub ruby_data : Json Num
  pub ruby_loading : Bool
  pub rules_result : Json Num
  pub rules_loading : Bool
  pub custom_rule : Text
  pub debt_ratio : Num
  pub ltv : Num
  pub num_defaults : Num
  pub annual_income_k : Num

-- The buttons.
pub data RubyAction : Type 0 where
  on_run_ruby on_load_custom_rule : RubyAction

-- The bound inputs.
pub data RubyEdit (Num : Type 0) : Type 0 where
  bind_custom_rule : Text → RubyEdit Num
  bind_debt_ratio : Num → RubyEdit Num
  bind_ltv : Num → RubyEdit Num
  bind_num_defaults : Num → RubyEdit Num
  bind_annual_income_k : Num → RubyEdit Num

module _ {Num : Type 0} (js : Setting Num) where
  abbrev pub ruby_initial : RubyState Num
  ruby_initial = record {
    ruby_data = null;
    ruby_loading = false;
    rules_result = null;
    rules_loading = false;
    custom_rule =
        codes
          "rule(:low_income_penalty) do\n  condition { annual_income_k < 50 }\n  action     { score - 40 }\nend";
    debt_ratio = js.literal (codes "0.75");
    ltv = js.literal (codes "0.88");
    num_defaults = js.literal (codes "1");
    annual_income_k = js.literal (codes "60");
  }

  abbrev pub rules_call : Text → Call
  rules_call body = record (api js (codes "/api/ruby/rules" ∷ [])) {
    method = codes "POST";
    headers = (codes "Content-Type", codes "text/plain") ∷ [];
    body = some body;
  }

  -- `rulesResult?.loaded` in a condition.
  abbrev pub is_loaded : Json Num → Bool
  is_loaded v = elim (maybe_read (some v) (codes "loaded")) [
    | none ↦ false
    | some loaded ↦ truthy js.numbers loaded
  ]

  unfoldable pub run_ruby : Async Num (RubyState Num) (Unit {0})
  run_ruby =
      with_loading (λ b s. record s { ruby_loading = b }) (λ s. record s { ruby_data = null })
        (look (λ s.
          fetch_all_or (λ v s. record s { ruby_data = v })
            (api js (
                codes "/api/ruby/score?"
                ∷ codes "debt_ratio="
                ∷ js.show s.debt_ratio
                ∷ codes "&ltv="
                ∷ js.show s.ltv
                ∷ codes "&num_defaults="
                ∷ js.show s.num_defaults
                ∷ codes "&annual_income_k="
                ∷ js.show s.annual_income_k
                ∷ [])
              ∷ api js (codes "/api/ruby/ruleset" ∷ [])
              ∷ api js (
                  codes "/api/ruby/evaluate?"
                  ∷ codes "debt_ratio="
                  ∷ js.show s.debt_ratio
                  ∷ codes "&ltv="
                  ∷ js.show s.ltv
                  ∷ codes "&num_defaults="
                  ∷ js.show s.num_defaults
                  ∷ codes "&annual_income_k="
                  ∷ js.show s.annual_income_k
                  ∷ [])
              ∷ [])
            ruby_combine (codes "Ruby DSL 엔진 오프라인")))
        (λ s. record s { ruby_data = error_value (codes "Ruby 서버 접속 불가 (:9004)") })

  unfoldable pub load_custom_rule : Async Num (RubyState Num) (Unit {0})
  unfolding run_ruby
  load_custom_rule =
      with_loading (λ b s. record s { rules_loading = b }) (λ s. record s { rules_result = null })
        (look (λ s. bind (fetch (rules_call s.custom_rule)) (λ res. bind (json res) (λ v.
          bind (assign (λ t. record t { rules_result = v }))
            (λ u. if is_loaded v then run_ruby else ret tt)))))
        (λ s. record s {
          rules_result = obj (
              field (codes "loaded") (bool false)
                (field (codes "error") (str (codes "Ruby 서버 접속 불가 (:9004)")) end));
        })

  abbrev ruby_flag_of : RubyAction → Option ℕ
  ruby_flag_of on_run_ruby = some 0
  ruby_flag_of on_load_custom_rule = some 1

  -- The `disabled` attributes.
  abbrev pub ruby_enabled : RubyAction → RubyState Num → Bool
  ruby_enabled on_run_ruby s = not s.ruby_loading
  ruby_enabled on_load_custom_rule s = not s.rules_loading

  abbrev ruby_body : RubyAction → Async Num (RubyState Num) (Unit {0})
  ruby_body on_run_ruby = run_ruby
  ruby_body on_load_custom_rule = load_custom_rule

  abbrev ruby_edit : RubyEdit Num → RubyState Num → RubyState Num
  ruby_edit (bind_custom_rule x) s = record s { custom_rule = x }
  ruby_edit (bind_debt_ratio x) s = record s { debt_ratio = x }
  ruby_edit (bind_ltv x) s = record s { ltv = x }
  ruby_edit (bind_num_defaults x) s = record s { num_defaults = x }
  ruby_edit (bind_annual_income_k x) s = record s { annual_income_k = x }

  abbrev pub ruby_flags : RubyState Num → List Bool
  ruby_flags s = s.ruby_loading ∷ s.rules_loading ∷ []

  abbrev pub ruby_panel : Panel Num
  ruby_panel = record {
    State = RubyState Num;
    Action = RubyAction;
    Edit = RubyEdit Num;
    initial = ruby_initial;
    flags = ruby_flags;
    flag_of = ruby_flag_of;
    enabled = ruby_enabled;
    body = ruby_body;
    edit = ruby_edit;
  }
