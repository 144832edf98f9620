-- ===== src/Panels/Elixir/Laws.antt =====
-- The functions of the Elixir panel keep its sockets, refs and delays in order.
use polyglot_infinity.Prelude.{
  ℕ, ◌*◌, min, ◌≡◌, refl, ap, subst, inl, inr, Bool, true, false, not, ◌&&◌, Option, none, some,
  List, [], ◌∷◌, if◌then◌else◌, ◌==◌, get_elem?, Text, text_eq, codes, arith, Bool-cases,
  Option-cases,
}
use polyglot_infinity.Js.Value.{Json, null, bool, num, str, arr, obj}
use polyglot_infinity.Js.Spread.{item}
use polyglot_infinity.Panels.Machine.{Rest, finished, crashed, waiting, advance, resume}
use polyglot_infinity.Panels.Setting.{Setting}
use polyglot_infinity.Portal.Feed.{member, without}
use polyglot_infinity.Panels.Elixir.{
  Ready, opening, ready_open, closed, phx_join, heartbeat, Elixir, ElixirEvent, click_check,
  click_toggle, click_connect, click_disconnect, answer, on_open, on_close, on_error, on_message,
  timeout, interval, leave, take_event, is_opening, is_open, is_closed, new_elixir, set_ready,
  close_socket, ws_throws, connect_ws, reconnect, opened, tick, received, on_closed,
  toggle_auto_reconnect, disconnect_ws, destroy, check_elixir, add_check, set_check, step, run,
}
use polyglot_infinity.Panels.Elixir.Readiness.{
  is_live, IsDelay, Sound, IsNumbered-le, IsDelay-doubled, close_socket-NoneLive, set-live,
  is_opening-live, with_message-IsNumbered,
}

module _ {Num : Type 0} where
  abbrev pub IsSound : Elixir Num → Type 0
  IsSound w =
      Sound w.ready w.ws w.reconnect_delay w.ref_counter w.sent w.intentional_close w.on_page

  if_both : (b : Bool) (v w : Elixir Num) → IsSound v → IsSound w → IsSound (if b then v else w)
  if_both true v w h k = h
  if_both false v w h k = k

  if_when :
      (b : Bool) (v w : Elixir Num)
      → (b ≡ true → IsSound v)
      → (b ≡ false → IsSound w)
      → IsSound (if b then v else w)
  if_when true v w h k = h refl
  if_when false v w h k = k refl

  connect_ws-IsSound : (w : Elixir Num) → w.on_page ≡ true → IsSound w → IsSound (connect_ws w)
  unfolding connect_ws
  connect_ws-IsSound w here c = record {
    only = λ i e. elim (set-live (close_socket w.ws w.ready) w.made i opening e) [
      | inl same ↦ ap some same
      | inr l ↦ absurd (let no = close_socket-NoneLive w.ws w.ready c.only i in cc)
    ];
    delays = c.delays;
    refs = c.refs;
    left = λ e. absurd (let h = here in cc);
  }

  reconnect-IsSound : (w : Elixir Num) → IsSound w → IsSound (reconnect w)
  unfolding reconnect
  reconnect-IsSound w c =
      if_when (w.auto_reconnect && not w.intentional_close) _ _
        (λ e.
          let here : w.on_page ≡ true = elim (Bool-cases w.on_page) [
            | inl h ↦ h
            | inr h ↦ absurd (let off = (c.left h).0 in ground (arith, off, e))
          ] in
          connect_ws-IsSound (record w { reconnect_delay = min (w.reconnect_delay * 2) 30000 }) here
            (record {
              only = c.only;
              delays = IsDelay-doubled w.reconnect_delay c.delays;
              refs = c.refs;
              left = c.left;
            }))
        (λ e. c)

  opened-IsSound : (w : Elixir Num) → IsSound w → IsSound (opened w)
  unfolding opened
  opened-IsSound w c =
      let first : IsDelay 3000 = record { low = omega arith; high = omega arith; whole = refl } in
      if_both (ws_throws w.ws w.ready) _ _
        (record {
          only = c.only;
          delays = first;
          refs = IsNumbered-le _ _ w.sent (omega arith) c.refs;
          left = c.left;
        })
        (record {
          only = c.only;
          delays = first;
          refs = with_message-IsNumbered w.ws w.ready (phx_join w.ref_counter) w.sent c.refs;
          left = c.left;
        })

  tick-IsSound : (o : Option ℕ) (w : Elixir Num) → IsSound w → IsSound (tick o w)
  unfolding tick
  tick-IsSound none w c = c
  tick-IsSound (some i) w c = record {
    only = c.only;
    delays = c.delays;
    refs = with_message-IsNumbered w.ws w.ready (heartbeat w.ref_counter) w.sent c.refs;
    left = c.left;
  }

  on_closed-IsSound : (w : Elixir Num) → IsSound w → IsSound (on_closed w)
  unfolding on_closed
  on_closed-IsSound w c = if_both (not w.intentional_close) _ _ (if_both _ _ _ c c) c

  take_event-IsSound :
      (o payload : Option (Json Num)) (now : Text) (w : Elixir Num)
      → IsSound w
      → IsSound (take_event o payload now w)
  unfolding take_event
  take_event-IsSound none payload now w c = c
  take_event-IsSound (some null) payload now w c = c
  take_event-IsSound (some (bool b)) payload now w c = c
  take_event-IsSound (some (num n)) payload now w c = c
  take_event-IsSound (some (arr vs)) payload now w c = c
  take_event-IsSound (some (obj fs)) payload now w c = c
  take_event-IsSound (some (str e)) payload now w c = if_both (text_eq e (codes "snapshot")) _ _ c c

  received-IsSound :
      (v : Option (Json Num)) (now : Text) (w : Elixir Num) → IsSound w → IsSound (received v now w)
  unfolding received
  received-IsSound none now w c = c
  received-IsSound (some null) now w c = c
  received-IsSound (some (bool b)) now w c = c
  received-IsSound (some (num n)) now w c = c
  received-IsSound (some (str t)) now w c = c
  received-IsSound (some (obj fs)) now w c = c
  received-IsSound (some (arr vs)) now w c = take_event-IsSound (item 3 vs) (item 4 vs) now w c

  disconnect_ws-IsSound : (w : Elixir Num) → IsSound w → IsSound (disconnect_ws w)
  unfolding disconnect_ws
  disconnect_ws-IsSound w c = record {
    only = λ i e. absurd (let no = close_socket-NoneLive w.ws w.ready c.only i in cc);
    delays = c.delays;
    refs = c.refs;
    left = λ e. (refl, close_socket-NoneLive w.ws w.ready c.only);
  }

  destroy-IsSound : (w : Elixir Num) → IsSound w → IsSound (destroy w)
  unfolding destroy
  destroy-IsSound w c = record {
    only = λ i e. absurd (let no = close_socket-NoneLive w.ws w.ready c.only i in cc);
    delays = c.delays;
    refs = c.refs;
    left = λ e. (refl, close_socket-NoneLive w.ws w.ready c.only);
  }

  toggle_auto_reconnect-IsSound :
      (w : Elixir Num) → w.on_page ≡ true → IsSound w → IsSound (toggle_auto_reconnect w)
  unfolding toggle_auto_reconnect
  toggle_auto_reconnect-IsSound w here c =
      if_both (not w.auto_reconnect) _ _
        (connect_ws-IsSound (record w { auto_reconnect = true; reconnect_delay = 3000 }) here
          (record {
            only = c.only;
            delays = record { low = omega arith; high = omega arith; whole = refl };
            refs = c.refs;
            left = c.left;
          }))
        (record {
          only = λ i e. absurd (let no = close_socket-NoneLive w.ws w.ready c.only i in cc);
          delays = c.delays;
          refs = c.refs;
          left = λ e. (refl, close_socket-NoneLive w.ws w.ready c.only);
        })

  add_check-IsSound :
      (r : Json Num × Rest Num (Json Num)) (w : Elixir Num) → IsSound w → IsSound (add_check r w)
  unfolding add_check
  add_check-IsSound (v, finished) w c = c
  add_check-IsSound (v, crashed m) w c = c
  add_check-IsSound (v, waiting t) w c = c

  set_check-IsSound :
      (i : ℕ) (r : Json Num × Rest Num (Json Num)) (w : Elixir Num)
      → IsSound w
      → IsSound (set_check i r w)
  unfolding set_check
  set_check-IsSound i (v, finished) w c = c
  set_check-IsSound i (v, crashed m) w c = c
  set_check-IsSound i (v, waiting t) w c = c

  -- A socket that is the only one still is when its state changes.
  set_ready-IsSound :
      (i : ℕ) (r : Ready) (w : Elixir Num)
      → (is_live r ≡ true → is_live (w.ready i) ≡ true)
      → IsSound w
      → IsSound (set_ready i r w)
  set_ready-IsSound i r w h c = record {
    only = λ j e. elim (Bool-cases (j == i)) [
      | inl same ↦
          let at_i : i ≡ j = ground (arith, same) in
          let live : is_live (w.ready i) ≡ true = h (rw same at e) in
          subst (λ k. w.ws ≡ some k) at_i (c.only i live)
      | inr other ↦ c.only j (rw other at e)
    ];
    delays = c.delays;
    refs = c.refs;
    left = λ off. (
      (c.left off).0,
      λ j. elim (Bool-cases (j == i)) [
        | inr other ↦ rw other ((c.left off).1 j)
        | inl same ↦ rw same (elim (Bool-cases (is_live r)) [
          | inl l ↦ absurd (let k = h l in let no = (c.left off).1 i in cc)
          | inr l ↦ l
        ])
      ],
    );
  }

  module _ (js : Setting Num) (parse : Text → Option (Json Num)) where
    pub step-IsSound :
        (w : Elixir Num) (e : ElixirEvent Num) → IsSound w → IsSound (step js parse w e)
    unfolding step
    step-IsSound w click_check c =
        if_both w.on_page _ _ (add_check-IsSound (advance (check_elixir js) w.elixir_status) w c) c
    step-IsSound w click_toggle c =
        if_when w.on_page _ _ (λ h. toggle_auto_reconnect-IsSound w h c) (λ h. c)
    step-IsSound w click_connect c =
        if_when (w.on_page && not w.ws_connected && not w.auto_reconnect) _ _
          (λ h. connect_ws-IsSound w (ground (arith, h)) c) (λ h. c)
    step-IsSound w click_disconnect c =
        if_both (w.on_page && w.ws_connected) _ _ (disconnect_ws-IsSound w c) c
    step-IsSound w (answer i answers) c = elim (Option-cases (get_elem? w.checks i)) [
      | inl e ↦ rw (e, step) c
      | inr (t, e) ↦
          rw (e, step) (set_check-IsSound i (advance (resume t answers) w.elixir_status) w c)
    ]
    step-IsSound w (on_open i) c =
        if_when (is_opening (w.ready i)) _ _
          (λ e.
            opened-IsSound (set_ready i ready_open w)
              (set_ready-IsSound i ready_open w (λ l. is_opening-live (w.ready i) e) c))
          (λ e. c)
    step-IsSound w (on_close i) c = if_both (is_closed (w.ready i)) _ _ c (
        on_closed-IsSound (set_ready i closed w)
          (set_ready-IsSound i closed w (λ l. absurd (cc)) c))
    step-IsSound w (on_error i) c = if_both (is_closed (w.ready i)) _ _ c c
    step-IsSound w (on_message i text now) c =
        if_both (is_open (w.ready i)) _ _ (received-IsSound (parse text) now w c) c
    step-IsSound w (timeout t) c =
        if_both (member t w.timeouts) _ _
          (reconnect-IsSound (record w { timeouts = without t w.timeouts }) c) c
    step-IsSound w (interval t) c = if_both (member t w.intervals) _ _ (tick-IsSound w.ws w c) c
    step-IsSound w leave c = if_both w.on_page _ _ (destroy-IsSound w c) c

    pub new_elixir-IsSound : IsSound (new_elixir {Num = Num})
    new_elixir-IsSound = record {
      only = λ i e. absurd (cc);
      delays = record { low = omega arith; high = omega arith; whole = refl };
      refs = tt;
      left = λ e. absurd (cc);
    }

    pub run-IsSound :
        (events : List (ElixirEvent Num)) (w : Elixir Num)
        → IsSound w
        → IsSound (run js parse w events)
    unfolding run
    run-IsSound [] w c = c
    run-IsSound (e ∷ events) w c = run-IsSound events (step js parse w e) (step-IsSound w e c)
