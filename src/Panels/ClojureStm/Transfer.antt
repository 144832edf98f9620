-- ===== src/Panels/ClojureStm/Transfer.antt =====
-- What a transfer shows, for every end of its two requests.
use polyglot_infinity.Prelude.{
  ◌≡◌, refl, Bool, true, false, Option, none, some, [], ◌∷◌, if◌then◌else◌, codes,
}
use polyglot_infinity.Js.Value.{Json, null, obj, end}
use polyglot_infinity.Js.Spread.{merge, spread}
use polyglot_infinity.Js.Async.{
  Call, Reply, Async, ret, bind, try_catch, finally_do, or_raise, bad_json, assign, look,
  fetch_json,
}
use polyglot_infinity.Panels.Machine.{finished, advance, Answer, resume}
use polyglot_infinity.Panels.Setting.{Setting, api}
use polyglot_infinity.Panels.Shape.{error_value, with_loading}
use polyglot_infinity.Panels.Shape.Outcome.{drive, follow}
use polyglot_infinity.Panels.ClojureStm.{ClojureStmState, is_set, refresh_status, do_transfer}

module _ {Num : Type 0} where
  -- The same end for every request.
  abbrev pub ends_in : Reply Num → Answer Num
  ends_in r [] = tt
  ends_in r (c ∷ cs) = (r, ends_in r cs)

  abbrev pub unreachable : ClojureStmState Num → ClojureStmState Num
  unreachable s = record s { transfer_res = error_value (codes "Clojure 서버 접속 불가 (:8009)") }

  -- With the transfer's answer, and the balances if they are shown.
  abbrev pub refreshed : Json Num → Json Num → ClojureStmState Num → ClojureStmState Num
  refreshed v status s =
      let t = record s { transfer_res = v } in
      if is_set s.clojure_data
      then record t {
        clojure_data = obj (merge (merge end (spread t.clojure_data)) (spread status));
      }
      else t

  abbrev pub with_status : Json Num → Option (Json Num) → ClojureStmState Num → ClojureStmState Num
  with_status v none s = unreachable s
  with_status v (some status) s = refreshed v status s

  abbrev pub body_of : Reply Num → Option (Json Num)
  body_of none = none
  body_of (some res) = res.body

  -- The result by the bodies of the transfer's response and of the status'.
  abbrev pub transferred :
      Option (Json Num) → Option (Json Num) → ClojureStmState Num → ClojureStmState Num
  transferred none status s = unreachable s
  transferred (some v) status s = with_status v status s

  abbrev guarded :
      Async Num (ClojureStmState Num) (Unit {0}) → Async Num (ClojureStmState Num) (Unit {0})
  guarded t =
      finally_do (try_catch t (λ m. assign unreachable))
        (λ s. record s { transfer_loading = false })

  shown :
      (b : Bool) (h : ClojureStmState Num → ClojureStmState Num) (t : ClojureStmState Num)
      → follow (advance (guarded (if b then assign h else ret tt)) t) []
        ≡ (record (if b then h t else t) { transfer_loading = false }, finished)
  unfolding follow advance bind try_catch finally_do
  shown true h t = refl
  shown false h t = refl

  module _ (js : Setting Num) where
    status_read :
        (o : Option (Json Num)) (v : Json Num) (s : ClojureStmState Num)
        → follow
            (advance
              (guarded (bind (or_raise o bad_json) (λ status. look (refresh_status js status))))
              (record s { transfer_res = v }))
            []
          ≡ (record (with_status v o s) { transfer_loading = false }, finished)
    unfolding follow advance bind try_catch finally_do refresh_status
    status_read none v s = refl
    status_read (some status) v s = shown (is_set s.clojure_data) _ (record s { transfer_res = v })

    sent_read :
        (o : Option (Json Num)) (call : Call) (status : Reply Num) (s : ClojureStmState Num)
        → follow
            (advance
              (guarded (
                bind (or_raise o bad_json) (λ v.
                  bind
                    (assign (λ t. record t { transfer_res = v }))
                    (λ u. bind (fetch_json call) (λ w. look (refresh_status js w))))))
              s)
            (ends_in status ∷ [])
          ≡ (record (transferred o (body_of status) s) { transfer_loading = false }, finished)
    unfolding follow advance resume bind try_catch finally_do
    sent_read none call status s = refl
    sent_read (some v) call none s = refl
    sent_read (some v) call (some st) s = status_read st.body v s

    -- What doTransfer leaves, whatever the ends of its two requests and their bodies: the flag is
    -- down and the function is over; the result is the error unless both requests brought JSON, so
    -- also where the transfer was answered and only the refresh behind it failed; else it is the
    -- transfer's body, and data that was shown is merged with the status.
    pub do_transfer-transferred :
        (s : ClojureStmState Num) (sent parsed status : Reply Num)
        → drive (do_transfer js) s (ends_in sent ∷ ends_in parsed ∷ ends_in status ∷ []) ≡ (
          record (transferred
              (body_of sent)
              (body_of status)
              (record s { transfer_loading = true; transfer_res = null })) {
                transfer_loading = false;
              },
          finished,
        )
    unfolding drive follow advance resume do_transfer with_loading bind try_catch finally_do
        refresh_status merge spread
    do_transfer-transferred s none parsed status = refl
    do_transfer-transferred s (some res) parsed status =
        sent_read res.body (api js (codes "/api/clojure/status" ∷ [])) status
          (record s { transfer_loading = true; transfer_res = null })
