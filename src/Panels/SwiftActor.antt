-- ===== src/Panels/SwiftActor.antt =====
-- portal-svelte/src/lib/components/panels/SwiftActorPanel.svelte: the actors of the Swift service.
use polyglot_infinity.Prelude.{
  ℕ, ◌≡◌, refl, Bool, true, false, not, Option, some, List, [], ◌∷◌, arith, Text, codes,
}
use polyglot_infinity.Js.Value.{Json, null, obj}
use polyglot_infinity.Js.Completion.{Completion, ok, throw}
use polyglot_infinity.Js.Spread.{merge, spread}
use polyglot_infinity.Js.Async.{Async, look}
use polyglot_infinity.Js.Async.Laws.{Keeps, look-IsQuiet}
use polyglot_infinity.Panels.Machine.{Panel}
use polyglot_infinity.Panels.Machine.Laws.{IsDown, Starts, IsLawful}
use polyglot_infinity.Panels.Setting.{Setting, api}
use polyglot_infinity.Panels.Shape.{error_value, with_loading, fetch_jsons_into, fetch_json_into}
use polyglot_infinity.Panels.Shape.Laws.{
  with_loading-Starts, fetch_jsons_into-IsQuiet, fetch_json_into-IsQuiet,
}

module _ {Num : Type 0} where
  -- `{ ...status, ...concurrent }`.
  unfoldable pub swift_combine : List (Json Num) → Completion (Json Num)
  unfolding merge spread
  swift_combine (status ∷ concurrent ∷ []) = ok (obj (merge (spread status) (spread concurrent)))
  swift_combine _ = throw []

pub record SwiftActorState (Num : Type 0) : Type 0 where
  pub swift_data : Json Num
  pub swift_loading : Bool
  pub trade_result : Json Num
  pub trade_loading : Bool
  pub trade_sym : Text
  pub trade_qty : Num
  pub trade_price : Num

-- The buttons.
pub data SwiftActorAction : Type 0 where
  on_run_swift on_execute_trade : SwiftActorAction

-- The bound inputs.
pub data SwiftActorEdit (Num : Type 0) : Type 0 where
  bind_trade_sym : Text → SwiftActorEdit Num
  bind_trade_qty : Num → SwiftActorEdit Num
  bind_trade_price : Num → SwiftActorEdit Num

module _ {Num : Type 0} (js : Setting Num) where
  abbrev pub swift_actor_initial : SwiftActorState Num
  swift_actor_initial = record {
    swift_data = null;
    swift_loading = false;
    trade_result = null;
    trade_loading = false;
    trade_sym = codes "AAPL";
    trade_qty = js.literal (codes "10");
    trade_price = js.literal (codes "182.5");
  }

  unfoldable pub run_swift : Async Num (SwiftActorState Num) (Unit {0})
  run_swift =
      with_loading (λ b s. record s { swift_loading = b }) (λ s. record s { swift_data = null })
        (fetch_jsons_into (λ v s. record s { swift_data = v })
          (api js (codes "/api/swift/status" ∷ [])
            ∷ api js (codes "/api/swift/concurrent?n=200" ∷ [])
            ∷ [])
          swift_combine)
        (λ s. record s { swift_data = error_value (codes "Swift 서버 접속 불가 (:8008)") })

  unfoldable pub execute_trade : Async Num (SwiftActorState Num) (Unit {0})
  execute_trade =
      with_loading (λ b s. record s { trade_loading = b }) (λ s. record s { trade_result = null })
        (look (λ s.
          fetch_json_into (λ v s. record s { trade_result = v })
            (api js (
              codes "/api/swift/trade?sym="
              ∷ js.encode_uri_component s.trade_sym
              ∷ codes "&qty="
              ∷ js.show s.trade_qty
              ∷ codes "&price="
              ∷ js.show s.trade_price
              ∷ []))))
        (λ s. record s { trade_result = error_value (codes "Swift 서버 접속 불가 (:8008)") })

  abbrev swift_actor_flag_of : SwiftActorAction → Option ℕ
  swift_actor_flag_of on_run_swift = some 0
  swift_actor_flag_of on_execute_trade = some 1

  -- The `disabled` attributes.
  abbrev pub swift_actor_enabled : SwiftActorAction → SwiftActorState Num → Bool
  swift_actor_enabled on_run_swift s = not s.swift_loading
  swift_actor_enabled on_execute_trade s = not s.trade_loading

  abbrev swift_actor_body : SwiftActorAction → Async Num (SwiftActorState Num) (Unit {0})
  swift_actor_body on_run_swift = run_swift
  swift_actor_body on_execute_trade = execute_trade

  abbrev swift_actor_edit : SwiftActorEdit Num → SwiftActorState Num → SwiftActorState Num
  swift_actor_edit (bind_trade_sym x) s = record s { trade_sym = x }
  swift_actor_edit (bind_trade_qty x) s = record s { trade_qty = x }
  swift_actor_edit (bind_trade_price x) s = record s { trade_price = x }

  abbrev pub swift_actor_flags : SwiftActorState Num → List Bool
  swift_actor_flags s = s.swift_loading ∷ s.trade_loading ∷ []

  abbrev pub swift_actor_panel : Panel Num
  swift_actor_panel = record {
    State = SwiftActorState Num;
    Action = SwiftActorAction;
    Edit = SwiftActorEdit Num;
    initial = swift_actor_initial;
    flags = swift_actor_flags;
    flag_of = swift_actor_flag_of;
    enabled = swift_actor_enabled;
    body = swift_actor_body;
    edit = swift_actor_edit;
  }

  swift_actor-disabled :
      (a : SwiftActorAction) (s : SwiftActorState Num)
      → swift_actor_enabled a s ≡ true
      → IsDown (swift_actor_flag_of a) (swift_actor_flags s)
  swift_actor-disabled on_run_swift s e = (ground arith, omega arith)
  swift_actor-disabled on_execute_trade s e = (ground arith, omega arith)

  swift_actor-edits : (e : SwiftActorEdit Num) → Keeps swift_actor_flags (swift_actor_edit e)
  swift_actor-edits (bind_trade_sym x) s = refl
  swift_actor-edits (bind_trade_qty x) s = refl
  swift_actor-edits (bind_trade_price x) s = refl

  swift_actor-Starts :
      (a : SwiftActorAction) → Starts swift_actor_flags (swift_actor_flag_of a) (swift_actor_body a)
  unfolding run_swift execute_trade
  swift_actor-Starts on_run_swift =
      with_loading-Starts Num swift_actor_flags 0 _ _ _ _ (λ b s. refl) (λ s. refl)
        (fetch_jsons_into-IsQuiet Num swift_actor_flags _ _ _ (λ v s. refl)) (λ s. refl)
  swift_actor-Starts on_execute_trade =
      with_loading-Starts Num swift_actor_flags 1 _ _ _ _ (λ b s. refl) (λ s. refl)
        (look-IsQuiet swift_actor_flags _
          (λ s. fetch_json_into-IsQuiet Num swift_actor_flags _ _ (λ v s. refl)))
        (λ s. refl)

  pub swift_actor_panel-IsLawful : IsLawful swift_actor_panel
  swift_actor_panel-IsLawful = record {
    disabled = swift_actor-disabled;
    idle = (refl, (refl, tt));
    edits = swift_actor-edits;
    starts = swift_actor-Starts;
  }
