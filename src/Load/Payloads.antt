-- ===== src/Load/Payloads.antt =====
-- What the two write scenarios send.
use mathlib.Core.Path.{subst₂}
use polyglot_infinity.Prelude.{
  ℕ, zero, suc, ◌-◌, ◌≤◌, ◌<◌, ◌≡◌, ◌≢◌, refl, ap, sym, subst, ◌∙◌, inl, inr, false, Option, some,
  List, [], ◌∷◌, ◌++◌, arith, length, get_elem?, get_elem?-total, Mem, Mem-get_elem?, Bool-cases,
  Text, text_eq, text_eq_self,
}
use polyglot_infinity.Load.User.{Call, Response, Env, Vu}
use polyglot_infinity.Load.Scenario.Writes.{
  symbols, order_types, sides, accounts, same, order_payload, transfer_payload,
  scenario_order_submit, redraw, send_transfer, scenario_clojure_transfer,
}
use polyglot_infinity.Load.Calls.{>>=-eq-some, some-pair, redraw-IsQuiet}

-- One request was made behind those before, with a payload.
pub record HasSent (v v' : Vu) (P : Call → Type 0) : Type 0 where
  pub call : Call
  pub response : Response
  pub calls : v'.calls ≡ v.calls ++ (call, response) ∷ []
  pub fits : P call

pub record IsOrder (c : Call) : Type 0 where
  pub symbol : Text
  pub order_type : Text
  pub side : Text
  pub quantity : ℕ
  pub cents : ℕ
  pub payload :
      c.payload ≡ some (order_payload (some symbol) quantity cents (some order_type) (some side))
  pub known_symbol : Mem symbol symbols
  pub known_type : Mem order_type order_types
  pub known_side : Mem side sides
  pub quantity_bounds : (1 ≤ quantity) × (quantity ≤ 1000)
  pub price_bounds : (10000 ≤ cents) × (cents ≤ 50000)

pub record IsTransfer (c : Call) : Type 0 where
  pub from : Text
  pub to : Text
  pub cents : ℕ
  pub payload : c.payload ≡ some (transfer_payload (some from) (some to) cents)
  pub known_from : Mem from accounts
  pub known_to : Mem to accounts
  pub distinct : from ≢ to
  pub amount_bounds : (100 ≤ cents) × (cents ≤ 10000)

-- A text from the list of accounts.
abbrev IsAccount : Option Text → Type 0
IsAccount o = (t : Text) × (o ≡ some t) × Mem t accounts

differs : (s t : Text) → same (some t) (some s) ≡ false → s ≢ t
differs s t h e = cc (text_eq_self t, h, ap (λ u. text_eq t u) e)

module _ (env : Env) where
  -- A draw of an index is inside the array.
  drawn_text :
      (texts : List Text) (k : ℕ)
      → 0 < length texts
      → (t : Text) × (get_elem? texts (env.random k 0 (length texts - 1)) ≡ some t) × Mem t texts
  drawn_text texts k filled =
      let i = env.random k 0 (length texts - 1) in
      let (_, below) = env.random_bounds k 0 (length texts - 1) (omega arith) in
      let (t, found) = get_elem?-total texts i (omega arith) in
      (t, found, Mem-get_elem? texts i t found)

  -- An order's scenario returns, with one request: an order of a known symbol, type and side, of 1
  -- to 1000 pieces at a price of 100.00 to 500.00.
  pub scenario_order_submit-IsOrder :
      (v : Vu) → (v' : Vu) × (scenario_order_submit env v ≡ some (tt, v')) × HasSent v v' IsOrder
  unfolding scenario_order_submit
  scenario_order_submit-IsOrder v =
      let (s, at_s, known_s) = drawn_text symbols v.draws (omega arith) in
      let (t, at_t, known_t) = drawn_text order_types (suc (suc (suc v.draws))) (omega arith) in
      let (d, at_d, known_d) = drawn_text sides (suc (suc (suc (suc v.draws)))) (omega arith) in
      (
        _,
        refl,
        record {
          call = _;
          response = _;
          calls = refl;
          fits = record {
            symbol = s;
            order_type = t;
            side = d;
            quantity = env.random (suc v.draws) 1 1000;
            cents = env.random (suc (suc v.draws)) 10000 50000;
            payload = rw (at_s, at_t, at_d);
            known_symbol = known_s;
            known_type = known_t;
            known_side = known_d;
            quantity_bounds = env.random_bounds (suc v.draws) 1 1000 (omega arith);
            price_bounds = env.random_bounds (suc (suc v.draws)) 10000 50000 (omega arith);
          };
        },
      )

  redraw-IsAccount :
      (rounds : ℕ) (from to o : Option Text) (v v' : Vu)
      → IsAccount to
      → redraw env rounds from to v ≡ some (o, v')
      → IsAccount o
  unfolding redraw
  redraw-IsAccount zero from to o v v' a h = absurd (cc)
  redraw-IsAccount (suc rounds) from to o v v' a h = elim (Bool-cases (same to from)) [
    | inl e ↦
        redraw-IsAccount rounds from (get_elem? accounts (env.random v.draws 0 4)) o
          (record v { draws = suc v.draws }) v' (drawn_text accounts v.draws (omega arith))
          (rw (e, redraw) at h)
    | inr e ↦
        let (same_o, _) = some-pair to o v v' (rw (e, redraw) at h) in subst IsAccount same_o a
  ]

  send_transfer-IsTransfer :
      (from to : Text) (v : Vu)
      → Mem from accounts
      → Mem to accounts
      → from ≢ to
      → (v' : Vu) × (send_transfer env (some from) (some to) v ≡ some (tt, v'))
        × HasSent v v' IsTransfer
  unfolding send_transfer
  send_transfer-IsTransfer from to v known_from known_to distinct = (
    _,
    refl,
    record {
      call = _;
      response = _;
      calls = refl;
      fits = record {
        from = from;
        to = to;
        cents = env.random v.draws 100 10000;
        payload = refl;
        known_from = known_from;
        known_to = known_to;
        distinct = distinct;
        amount_bounds = env.random_bounds v.draws 100 10000 (omega arith);
      };
    },
  )

  sent-IsTransfer :
      (s t : Text) (from to : Option Text) (v v' : Vu)
      → from ≡ some s
      → to ≡ some t
      → Mem s accounts
      → Mem t accounts
      → same to from ≡ false
      → send_transfer env from to v ≡ some (tt, v')
      → HasSent v v' IsTransfer
  sent-IsTransfer s t from to v v' at_s at_t known_s known_t other sent =
      let distinct : s ≢ t = differs s t (rw (at_t, at_s) at other) in
      let (w, sends, has) = send_transfer-IsTransfer s t v known_s known_t distinct in
      let sent' = subst₂ (λ a b. send_transfer env a b v ≡ some (tt, v')) at_s at_t sent in
      let (_, last) = some-pair tt tt w v' (sym sends ∙ sent') in
      subst (λ u. HasSent v u IsTransfer) last has

  -- A transfer that is sent goes from one known account to another, of an amount from 1.00 to
  -- 100.00.
  pub scenario_clojure_transfer-IsTransfer :
      (rounds : ℕ) (v v' : Vu)
      → scenario_clojure_transfer env rounds v ≡ some (tt, v')
      → HasSent v v' IsTransfer
  unfolding scenario_clojure_transfer
  scenario_clojure_transfer-IsTransfer rounds v v' h =
      let from = get_elem? accounts (env.random v.draws 0 4) in
      let drawn = record v { draws = suc v.draws } in
      let (s, at_s, known_s) = drawn_text accounts v.draws (omega arith) in
      let (out, drew, sent) =
        >>=-eq-some (redraw env rounds from from) (send_transfer env from) drawn (tt, v') h in
      let (to, v₂) = out in
      let (quiet, other) = redraw-IsQuiet env rounds from from to drawn v₂ drew in
      let (t, at_t, known_t) =
        redraw-IsAccount rounds from from to drawn v₂ (s, at_s, known_s) drew in
      let has = sent-IsTransfer s t from to v₂ v' at_s at_t known_s known_t other sent in
      record {
        call = has.call;
        response = has.response;
        calls = has.calls ∙ ap (λ l. l ++ (has.call, has.response) ∷ []) quiet.calls;
        fits = has.fits;
      }
