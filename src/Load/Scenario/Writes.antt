-- ===== src/Load/Scenario/Writes.antt =====
-- The scenarios of tests/load-test.js that post a payload.
use polyglot_infinity.Prelude.{
  ℕ, zero, suc, ◌-◌, Bool, true, false, ◌&&◌, ◌||◌, Option, none, some, List, [], ◌∷◌, leb, ltb,
  ◌==◌, if◌then◌else◌, get_elem?, length, Text, text_eq, codes,
}
use polyglot_infinity.Js.Value.{Json, Fields, str, num, obj, end, field}
use polyglot_infinity.Load.User.{
  Amount, whole, hundredths, Response, Env, order_latency, M, ◌>>=◌, ◌>>◌, pure, random_int_between,
  now, http_post, add_latency,
}
use polyglot_infinity.Load.Scenario.Verdict.{verdict}

abbrev pub symbols : List Text
symbols = codes "AAPL" ∷ codes "TSLA" ∷ codes "MSFT" ∷ codes "NVDA" ∷ codes "GOOG" ∷ []

abbrev pub order_types : List Text
order_types = codes "MARKET" ∷ codes "LIMIT" ∷ codes "STOP" ∷ []

abbrev pub sides : List Text
sides = codes "BUY" ∷ codes "SELL" ∷ []

abbrev pub accounts : List Text
accounts =
    codes "ACC-001" ∷ codes "ACC-002" ∷ codes "ACC-003" ∷ codes "ACC-004" ∷ codes "ACC-005" ∷ []

-- A text field, left out by `JSON.stringify` where the value is undefined.
abbrev pub text_field : Text → Option Text → Fields Amount → Fields Amount
text_field k none fs = fs
text_field k (some t) fs = field k (str t) fs

abbrev pub num_field : Text → Amount → Fields Amount → Fields Amount
num_field k a fs = field k (num a) fs

-- `a === b` for texts or undefined.
abbrev pub same : Option Text → Option Text → Bool
same none none = true
same none (some t) = false
same (some s) none = false
same (some s) (some t) = text_eq s t

abbrev pub order_payload : Option Text → ℕ → ℕ → Option Text → Option Text → Json Amount
order_payload symbol quantity cents order_type side = obj (
    text_field (codes "symbol") symbol (
      num_field (codes "quantity") (whole quantity) (
        num_field (codes "price") (hundredths cents)
          (text_field (codes "order_type") order_type (text_field (codes "side") side end)))))

abbrev pub transfer_payload : Option Text → Option Text → ℕ → Json Amount
transfer_payload from to cents = obj (
    text_field (codes "from_account") from
      (text_field (codes "to_account") to (num_field (codes "amount") (hundredths cents) end)))

abbrev pub accepted : Response → Bool
accepted res = res.status == 200 || res.status == 201

module _ (env : Env) where
  unfoldable pub scenario_order_submit : M (Unit {0})
  scenario_order_submit = do
    symbol ← random_int_between env 0 (length symbols - 1)
    quantity ← random_int_between env 1 1000
    price ← random_int_between env 10000 50000
    order_type ← random_int_between env 0 (length order_types - 1)
    side ← random_int_between env 0 (length sides - 1)
    start ← now env
    res ←
        http_post env (codes "/api/java/order")
          (some (
            order_payload (get_elem? symbols symbol) quantity price
              (get_elem? order_types order_type) (get_elem? sides side)))
          none
    stop ← now env
    add_latency order_latency stop start
    verdict res ((codes "order accepted", accepted res) ∷ [])

  -- `while (to === from)`, followed for a number of rounds: a loop that is longer has no result.
  unfoldable pub redraw : ℕ → Option Text → Option Text → M (Option Text)
  redraw zero from to = λ v. none
  redraw (suc rounds) from to =
      let again : M (Option Text) = random_int_between env 0 (length accounts - 1) >>= λ i.
      redraw rounds from (get_elem? accounts i) in
      if same to from then again else pure to

  -- What the transfer scenario does once it has two accounts.
  unfoldable pub send_transfer : Option Text → Option Text → M (Unit {0})
  send_transfer from to = do
    amount ← random_int_between env 100 10000
    res ←
        http_post env (codes "/api/clojure/transfer") (some (transfer_payload from to amount)) none
    verdict res ((codes "clojure transfer accepted", accepted res) ∷ [])

  unfoldable pub scenario_clojure_transfer : ℕ → M (Unit {0})
  unfolding redraw send_transfer
  scenario_clojure_transfer rounds = do
    i ← random_int_between env 0 (length accounts - 1)
    let from = get_elem? accounts i
    to ← redraw rounds from from
    send_transfer from to

  unfoldable pub scenario_swift_order : M (Unit {0})
  scenario_swift_order = do
    quantity ← random_int_between env 1 10
    price ← random_int_between env 2000000 7000000
    side ← random_int_between env 0 1
    res ←
        http_post env (codes "/api/swift/order")
          (some (
            obj (
              text_field (codes "symbol") (some (codes "BTC-USD")) (
                num_field (codes "quantity") (whole quantity) (
                  num_field (codes "price") (hundredths price) (
                    text_field (codes "side")
                      (some (if side == 0 then codes "BUY" else codes "SELL")) end))))))
          none
    verdict res ((codes "swift order accepted", accepted res) ∷ [])

  unfoldable pub scenario_pipeline_trigger : M (Unit {0})
  scenario_pipeline_trigger = do
    res ← http_post env (codes "/api/pipeline/trigger") none (some (codes "10s"))
    verdict res ((codes "pipeline trigger 2xx", leb 200 res.status && ltb res.status 300) ∷ [])
