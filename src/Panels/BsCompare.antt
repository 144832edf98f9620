-- ===== src/Panels/BsCompare.antt =====
-- portal-svelte/src/lib/components/panels/BSComparePanel.svelte: the option prices of several engines side by side.
use polyglot_infinity.Prelude.{
  ℕ, ◌≡◌, refl, Bool, true, false, not, Option, none, some, List, [], ◌∷◌, if◌then◌else◌, arith,
  Text, text_eq, codes,
}
use polyglot_infinity.Js.Value.{Json, null, str, truthy}
use polyglot_infinity.Js.Number.{Numbers}
use polyglot_infinity.Js.Spread.{maybe_read, or_else}
use polyglot_infinity.Js.Async.{Async, look}
use polyglot_infinity.Js.Async.Laws.{Keeps, look-IsQuiet}
use polyglot_infinity.Panels.Machine.{Panel}
use polyglot_infinity.Panels.Machine.Laws.{IsDown, Starts, IsLawful}
use polyglot_infinity.Panels.Setting.{Setting, api}
use polyglot_infinity.Panels.Shape.{error_value, with_loading, fetch_or}
use polyglot_infinity.Panels.Shape.Laws.{with_loading-Starts, fetch_or-IsQuiet}

-- What the table shows of an engine's answer, which may be missing.
module _ {Num : Type 0} (n : Numbers Num) where
  -- `const d = eng?.data; if (!d) …`.
  abbrev pub engine_data : Option (Json Num) → Option (Json Num)
  engine_data eng = elim (maybe_read eng (codes "data")) [
    | none ↦ none
    | some d ↦ if truthy n d then some d else none
  ]

  -- The first of some properties that is neither null nor undefined, or a dash.
  abbrev pub first_of : List Text → Option (Json Num) → Json Num
  first_of [] d = str (codes "—")
  first_of (k ∷ ks) d = elim (or_else (maybe_read d k) none) [ none ↦ first_of ks d | some v ↦ v ]

  abbrev pub call_val : Option (Json Num) → Json Num
  call_val eng =
      first_of (codes "call" ∷ codes "call_price" ∷ codes "risk_score" ∷ []) (engine_data eng)

  abbrev pub put_val : Option (Json Num) → Json Num
  put_val eng = first_of (codes "put" ∷ codes "put_price" ∷ []) (engine_data eng)

  abbrev pub delta_val : Option (Json Num) → Json Num
  delta_val eng = first_of (codes "delta" ∷ codes "call_delta" ∷ []) (engine_data eng)

  abbrev pub gamma_val : Option (Json Num) → Json Num
  gamma_val eng = first_of (codes "gamma" ∷ []) (engine_data eng)

  abbrev is_ok_text : Option (Json Num) → Bool
  is_ok_text (some (str s)) = text_eq s (codes "ok")
  is_ok_text _ = false

  -- `!eng` holds for a missing engine and for a value that counts as false.
  abbrev pub status_class : Option (Json Num) → Text
  status_class none = codes "status-unknown"
  status_class (some eng) =
      if truthy n eng
      then (if is_ok_text (maybe_read (some eng) (codes "status"))
          then codes "status-ok"
          else codes "status-err")
      else codes "status-unknown"

pub record BsCompareState (Num : Type 0) : Type 0 where
  pub result : Json Num
  pub loading : Bool
  pub bs_s : Num
  pub bs_k : Num
  pub bs_sigma : Num
  pub bs_t : Num
  pub bs_r : Num

-- The buttons.
pub data BsCompareAction : Type 0 where
  on_run_compare : BsCompareAction

-- The bound inputs.
pub data BsCompareEdit (Num : Type 0) : Type 0 where
  bind_bs_s : Num → BsCompareEdit Num
  bind_bs_k : Num → BsCompareEdit Num
  bind_bs_sigma : Num → BsCompareEdit Num
  bind_bs_t : Num → BsCompareEdit Num
  bind_bs_r : Num → BsCompareEdit Num

module _ {Num : Type 0} (js : Setting Num) where
  abbrev pub bs_compare_initial : BsCompareState Num
  bs_compare_initial = record {
    result = null;
    loading = false;
    bs_s = js.literal (codes "100");
    bs_k = js.literal (codes "100");
    bs_sigma = js.literal (codes "0.2");
    bs_t = js.literal (codes "1.0");
    bs_r = js.literal (codes "0.05");
  }

  unfoldable pub run_compare : Async Num (BsCompareState Num) (Unit {0})
  run_compare =
      with_loading (λ b s. record s { loading = b }) (λ s. record s { result = null })
        (look (λ s.
          fetch_or (λ v s. record s { result = v })
            (api js (
              codes "/api/workflow/option-compare?s="
              ∷ js.show s.bs_s
              ∷ codes "&k="
              ∷ js.show s.bs_k
              ∷ codes "&sigma="
              ∷ js.show s.bs_sigma
              ∷ codes "&t="
              ∷ js.show s.bs_t
              ∷ codes "&r="
              ∷ js.show s.bs_r
              ∷ []))
            (codes "Go 워크플로 오프라인")))
        (λ s. record s { result = error_value (codes "Go 게이트웨이 접속 불가 (:8080)") })

  abbrev bs_compare_flag_of : BsCompareAction → Option ℕ
  bs_compare_flag_of on_run_compare = some 0

  -- The `disabled` attributes.
  abbrev pub bs_compare_enabled : BsCompareAction → BsCompareState Num → Bool
  bs_compare_enabled on_run_compare s = not s.loading

  abbrev bs_compare_body : BsCompareAction → Async Num (BsCompareState Num) (Unit {0})
  bs_compare_body on_run_compare = run_compare

  abbrev bs_compare_edit : BsCompareEdit Num → BsCompareState Num → BsCompareState Num
  bs_compare_edit (bind_bs_s x) s = record s { bs_s = x }
  bs_compare_edit (bind_bs_k x) s = record s { bs_k = x }
  bs_compare_edit (bind_bs_sigma x) s = record s { bs_sigma = x }
  bs_compare_edit (bind_bs_t x) s = record s { bs_t = x }
  bs_compare_edit (bind_bs_r x) s = record s { bs_r = x }

  abbrev pub bs_compare_flags : BsCompareState Num → List Bool
  bs_compare_flags s = s.loading ∷ []

  abbrev pub bs_compare_panel : Panel Num
  bs_compare_panel = record {
    State = BsCompareState Num;
    Action = BsCompareAction;
    Edit = BsCompareEdit Num;
    initial = bs_compare_initial;
    flags = bs_compare_flags;
    flag_of = bs_compare_flag_of;
    enabled = bs_compare_enabled;
    body = bs_compare_body;
    edit = bs_compare_edit;
  }

  bs_compare-disabled :
      (a : BsCompareAction) (s : BsCompareState Num)
      → bs_compare_enabled a s ≡ true
      → IsDown (bs_compare_flag_of a) (bs_compare_flags s)
  bs_compare-disabled on_run_compare s e = (ground arith, omega arith)

  bs_compare-edits : (e : BsCompareEdit Num) → Keeps bs_compare_flags (bs_compare_edit e)
  bs_compare-edits (bind_bs_s x) s = refl
  bs_compare-edits (bind_bs_k x) s = refl
  bs_compare-edits (bind_bs_sigma x) s = refl
  bs_compare-edits (bind_bs_t x) s = refl
  bs_compare-edits (bind_bs_r x) s = refl

  bs_compare-Starts :
      (a : BsCompareAction) → Starts bs_compare_flags (bs_compare_flag_of a) (bs_compare_body a)
  unfolding run_compare
  bs_compare-Starts on_run_compare =
      with_loading-Starts Num bs_compare_flags 0 _ _ _ _ (λ b s. refl) (λ s. refl)
        (look-IsQuiet bs_compare_flags _
          (λ s. fetch_or-IsQuiet Num bs_compare_flags _ _ _ (λ v s. refl)))
        (λ s. refl)

  pub bs_compare_panel-IsLawful : IsLawful bs_compare_panel
  bs_compare_panel-IsLawful = record {
    disabled = bs_compare-disabled;
    idle = (refl, tt);
    edits = bs_compare-edits;
    starts = bs_compare-Starts;
  }
