-- ===== src/Panels/ClojureStm.antt =====
-- portal-svelte/src/lib/components/panels/ClojureSTMPanel.svelte: the ledger of the Clojure service.
pub mod Transfer
use polyglot_infinity.Prelude.{
  ℕ, ◌≡◌, refl, Bool, true, false, not, ◌||◌, Option, some, List, [], ◌∷◌, if◌then◌else◌, arith,
  Text, text_eq, codes,
}
use polyglot_infinity.Js.Value.{Json, null, obj, end, read}
use polyglot_infinity.Js.Completion.{Completion, ok, throw}
use polyglot_infinity.Js.Spread.{set_field, put_field, merge, spread, read_index}
use polyglot_infinity.Js.Async.{
  Async, ret, look, bind, assign, fetch, json, fetch_json, fetch_jsons,
}
use polyglot_infinity.Js.Async.Laws.{
  Keeps, IsQuiet, look-IsQuiet, bind-IsQuiet, assign-IsQuiet, fetch-IsQuiet, json-IsQuiet,
}
use polyglot_infinity.Panels.Machine.{Panel}
use polyglot_infinity.Panels.Machine.Laws.{IsDown, Starts, IsLawful}
use polyglot_infinity.Panels.Setting.{Setting, api}
use polyglot_infinity.Panels.Shape.{error_value, with_loading, value_of}
use polyglot_infinity.Panels.Shape.Laws.{
  with_loading-Starts, if-IsQuiet, fetch_json-IsQuiet, jsons-IsQuiet, value_of-IsQuiet,
}

module _ {Num : Type 0} where
  abbrev pub is_set : Json Num → Bool
  is_set null = false
  is_set _ = true

  -- What `runClojure` makes of the two bodies.
  unfoldable pub clojure_combine : List (Json Num) → Completion (Json Num)
  unfolding put_field set_field spread read read_index
  clojure_combine (status ∷ stress ∷ []) =
      ok (obj (put_field (codes "stress") (some stress) (spread status)))
  clojure_combine _ = throw []

pub record ClojureStmState (Num : Type 0) : Type 0 where
  pub clojure_data : Json Num
  pub transfer_res : Json Num
  pub clojure_loading : Bool
  pub transfer_loading : Bool
  pub from_acc : Text
  pub to_acc : Text
  pub amount : Text

-- The buttons.
pub data ClojureStmAction : Type 0 where
  on_run_clojure on_do_transfer : ClojureStmAction

-- The bound inputs.
pub data ClojureStmEdit (Num : Type 0) : Type 0 where
  bind_from_acc : Text → ClojureStmEdit Num
  bind_to_acc : Text → ClojureStmEdit Num
  bind_amount : Text → ClojureStmEdit Num

module _ {Num : Type 0} (js : Setting Num) where
  abbrev pub clojure_initial : ClojureStmState Num
  clojure_initial = record {
    clojure_data = null;
    transfer_res = null;
    clojure_loading = false;
    transfer_loading = false;
    from_acc = codes "ACC-001";
    to_acc = codes "ACC-002";
    amount = codes "500";
  }

  -- `if (clojureData) clojureData = { ...clojureData, ...status };`, where the variable holds null or
  -- an object.
  unfoldable pub refresh_status :
      Json Num → ClojureStmState Num → Async Num (ClojureStmState Num) (Unit {0})
  unfolding merge spread
  refresh_status status s =
      if is_set s.clojure_data
      then assign (λ t. record t {
        clojure_data = obj (merge (merge end (spread t.clojure_data)) (spread status));
      })
      else ret tt

  unfoldable pub run_clojure : Async Num (ClojureStmState Num) (Unit {0})
  run_clojure =
      with_loading (λ b s. record s { clojure_loading = b }) (λ s. record s { clojure_data = null })
        (bind
          (fetch_jsons (
            api js (codes "/api/clojure/status" ∷ [])
            ∷ api js (codes "/api/clojure/stress?n=300" ∷ [])
            ∷ []))
          (λ vs. bind (value_of (clojure_combine vs)) (λ v.
            bind (assign (λ s. record s { clojure_data = v }))
              (λ u. assign (λ s. record s { transfer_res = null })))))
        (λ s. record s { clojure_data = error_value (codes "Clojure 서버 접속 불가 (:8009)") })

  unfoldable pub do_transfer : Async Num (ClojureStmState Num) (Unit {0})
  unfolding refresh_status
  do_transfer =
      with_loading (λ b s. record s { transfer_loading = b })
        (λ s. record s { transfer_res = null })
        (look (λ s.
          bind
            (fetch (
              api js (
                codes "/api/clojure/transfer?from="
                ∷ s.from_acc
                ∷ codes "&to="
                ∷ s.to_acc
                ∷ codes "&amount="
                ∷ js.show (js.parse_float_or s.amount (js.literal (codes "100")))
                ∷ [])))
            (λ res. bind (json res) (λ v. bind (assign (λ s. record s { transfer_res = v })) (λ u.
              bind (fetch_json (api js (codes "/api/clojure/status" ∷ [])))
                (λ status. look (refresh_status status)))))))
        (λ s. record s { transfer_res = error_value (codes "Clojure 서버 접속 불가 (:8009)") })

  abbrev clojure_flag_of : ClojureStmAction → Option ℕ
  clojure_flag_of on_run_clojure = some 0
  clojure_flag_of on_do_transfer = some 1

  -- The `disabled` attributes.
  abbrev pub clojure_enabled : ClojureStmAction → ClojureStmState Num → Bool
  clojure_enabled on_run_clojure s = not s.clojure_loading
  clojure_enabled on_do_transfer s = not (s.transfer_loading || text_eq s.from_acc s.to_acc)

  abbrev clojure_body : ClojureStmAction → Async Num (ClojureStmState Num) (Unit {0})
  clojure_body on_run_clojure = run_clojure
  clojure_body on_do_transfer = do_transfer

  abbrev clojure_edit : ClojureStmEdit Num → ClojureStmState Num → ClojureStmState Num
  clojure_edit (bind_from_acc x) s = record s { from_acc = x }
  clojure_edit (bind_to_acc x) s = record s { to_acc = x }
  clojure_edit (bind_amount x) s = record s { amount = x }

  abbrev pub clojure_flags : ClojureStmState Num → List Bool
  clojure_flags s = s.clojure_loading ∷ s.transfer_loading ∷ []

  abbrev pub clojure_panel : Panel Num
  clojure_panel = record {
    State = ClojureStmState Num;
    Action = ClojureStmAction;
    Edit = ClojureStmEdit Num;
    initial = clojure_initial;
    flags = clojure_flags;
    flag_of = clojure_flag_of;
    enabled = clojure_enabled;
    body = clojure_body;
    edit = clojure_edit;
  }

  refresh_status-IsQuiet :
      (status : Json Num) (s : ClojureStmState Num)
      → IsQuiet clojure_flags (refresh_status status s)
  unfolding refresh_status IsQuiet
  refresh_status-IsQuiet status s =
      if-IsQuiet Num clojure_flags (is_set s.clojure_data) _ _ (λ t. refl, tt) tt

  clojure-disabled :
      (a : ClojureStmAction) (s : ClojureStmState Num)
      → clojure_enabled a s ≡ true
      → IsDown (clojure_flag_of a) (clojure_flags s)
  clojure-disabled on_run_clojure s e = (ground arith, omega arith)
  clojure-disabled on_do_transfer s e = (ground arith, omega arith)

  clojure-edits : (e : ClojureStmEdit Num) → Keeps clojure_flags (clojure_edit e)
  clojure-edits (bind_from_acc x) s = refl
  clojure-edits (bind_to_acc x) s = refl
  clojure-edits (bind_amount x) s = refl

  clojure-Starts :
      (a : ClojureStmAction) → Starts clojure_flags (clojure_flag_of a) (clojure_body a)
  unfolding run_clojure do_transfer
  clojure-Starts on_run_clojure =
      with_loading-Starts Num clojure_flags 0 _ _ _ _ (λ b s. refl) (λ s. refl)
        (bind-IsQuiet clojure_flags _ _ (jsons-IsQuiet Num clojure_flags _) (λ vs.
          bind-IsQuiet clojure_flags _ _ (value_of-IsQuiet Num clojure_flags (clojure_combine vs))
            (λ v.
              bind-IsQuiet clojure_flags _ _ (assign-IsQuiet Num clojure_flags _ (λ s. refl))
                (λ u. assign-IsQuiet Num clojure_flags _ (λ s. refl)))))
        (λ s. refl)
  clojure-Starts on_do_transfer =
      with_loading-Starts Num clojure_flags 1 _ _ _ _ (λ b s. refl) (λ s. refl)
        (look-IsQuiet clojure_flags _ (λ s.
          bind-IsQuiet clojure_flags _ _ (fetch-IsQuiet Num clojure_flags _) (λ res.
            bind-IsQuiet clojure_flags _ _ (json-IsQuiet Num clojure_flags res) (λ v.
              bind-IsQuiet clojure_flags _ _ (assign-IsQuiet Num clojure_flags _ (λ s. refl)) (λ u.
                bind-IsQuiet clojure_flags _ _ (fetch_json-IsQuiet Num clojure_flags _) (λ status.
                  look-IsQuiet clojure_flags _ (λ s. refresh_status-IsQuiet status s)))))))
        (λ s. refl)

  pub clojure_panel-IsLawful : IsLawful clojure_panel
  clojure_panel-IsLawful = record {
    disabled = clojure-disabled;
    idle = (refl, (refl, tt));
    edits = clojure-edits;
    starts = clojure-Starts;
  }
