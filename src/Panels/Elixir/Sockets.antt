-- ===== src/Panels/Elixir/Sockets.antt =====
-- What the Elixir panel's sockets come to: during its life, after it, and when an old one closes late.
use polyglot_infinity.Prelude.{
  ℕ, suc, ◌*◌, ◌/◌, ◌++◌, ◌<◌, min, ◌≡◌, refl, ap, ◌∙◌, inl, inr, Bool, true, false, not, ◌&&◌,
  ◌||◌, Option, none, some, List, [], ◌∷◌, if◌then◌else◌, ◌==◌, get_elem?, Text, codes, arith,
  Bool-cases, Option-cases,
}
use polyglot_infinity.Js.Value.{Json}
use polyglot_infinity.Js.Decimal.{decimal}
use polyglot_infinity.Panels.Machine.{Rest, finished, crashed, waiting, advance, resume}
use polyglot_infinity.Panels.Setting.{Setting}
use polyglot_infinity.Portal.Feed.{member, without}
use polyglot_infinity.Panels.Elixir.{
  Ready, opening, ready_open, closing, closed, Message, heartbeat, Elixir, ElixirEvent, click_check,
  click_toggle, click_connect, click_disconnect, answer, on_open, on_close, on_error, on_message,
  timeout, interval, leave, is_opening, is_open, is_closed, after_close, new_elixir, set_ready,
  clear_timer, close_socket, with_message, connect_ws, reconnect, tick, on_closed, set_check, step,
  run,
}
use polyglot_infinity.Panels.Elixir.Laws.{IsSound, run-IsSound, step-IsSound, new_elixir-IsSound}
use polyglot_infinity.Panels.Elixir.Readiness.{is_live, NoneLive, is_open-dead, is_opening-dead}

with_message-dead :
    (o : Option ℕ) (ready : ℕ → Ready) (m : Message) (sent : List Message)
    → NoneLive ready
    → with_message o ready m sent ≡ sent
unfolding with_message
with_message-dead none ready m sent h = refl
with_message-dead (some i) ready m sent h = rw (is_open-dead (ready i) (h i)) refl

if_true {ℓ} : {A : Type ℓ} (b : Bool) (x y : A) → b ≡ true → (if b then x else y) ≡ x
if_true b x y h = rw h refl

if_false {ℓ} : {A : Type ℓ} (b : Bool) (x y : A) → b ≡ false → (if b then x else y) ≡ y
if_false b x y h = rw h refl

close_socket-own :
    (ready : ℕ → Ready) (j : ℕ) → close_socket (some j) ready j ≡ after_close (ready j)
unfolding close_socket
close_socket-own ready j = if_true (j == j) (after_close (ready j)) (ready j) (ground arith)

close_socket-at :
    (o : Option ℕ) (ready : ℕ → Ready) (j : ℕ)
    → o ≡ some j
    → close_socket o ready j ≡ after_close (ready j)
close_socket-at o ready j h = rw h (close_socket-own ready j)

distinct :
    (ready : ℕ → Ready) (i j : ℕ) → ready i ≡ closing → ready j ≡ ready_open → (j == i) ≡ false
distinct ready i j old live = elim (Bool-cases (j == i)) [
  | inr e ↦ e
  | inl e ↦ absurd (let same : j ≡ i = ground (arith, e) in let both = ap ready same in cc)
]

dead_open : {A : Type 0} (r : Ready) → is_live r ≡ false → is_open r ≡ true → A
dead_open r h e = absurd (let no = is_open-dead r h in cc)

dead_opening : {A : Type 0} (r : Ready) → is_live r ≡ false → is_opening r ≡ true → A
dead_opening r h e = absurd (let no = is_opening-dead r h in cc)

module _ {Num : Type 0} where
  -- No socket was made and nothing was sent between the two, and the second is off the page.
  abbrev Still : Elixir Num → Elixir Num → Type 0
  Still w v = (v.made ≡ w.made) × (v.sent ≡ w.sent) × (v.on_page ≡ false)

  either-Still :
      (w : Elixir Num) (b : Bool) (u v : Elixir Num)
      → (b ≡ true → Still w u)
      → Still w v
      → Still w (if b then u else v)
  either-Still w true u v h k = h refl
  either-Still w false u v h k = k

  set_check-Still :
      (w : Elixir Num) (i : ℕ) (r : Json Num × Rest Num (Json Num))
      → w.on_page ≡ false
      → Still w (set_check i r w)
  unfolding set_check
  set_check-Still w i (v, finished) h = (refl, refl, h)
  set_check-Still w i (v, crashed m) h = (refl, refl, h)
  set_check-Still w i (v, waiting t) h = (refl, refl, h)

  tick-Still :
      (o : Option ℕ) (w : Elixir Num) → w.on_page ≡ false → NoneLive w.ready → Still w (tick o w)
  unfolding tick
  tick-Still none w h dead = (refl, refl, h)
  tick-Still (some i) w h dead =
      (refl, with_message-dead w.ws w.ready (heartbeat w.ref_counter) w.sent dead, h)

  on_closed-Still : (w : Elixir Num) → w.on_page ≡ false → Still w (on_closed w)
  unfolding on_closed
  on_closed-Still w h =
      either-Still w (not w.intentional_close) _ _
        (λ e. either-Still w _ _ _ (λ k. (refl, refl, h)) (refl, refl, h)) (refl, refl, h)

  reconnect-Still :
      (w : Elixir Num) → w.on_page ≡ false → w.intentional_close ≡ true → Still w (reconnect w)
  unfolding reconnect
  reconnect-Still w h off =
      either-Still w (w.auto_reconnect && not w.intentional_close) _ _
        (λ e. absurd (ground (arith, e, off))) (refl, refl, h)

  module _ (js : Setting Num) (parse : Text → Option (Json Num)) where
    step-Still :
        (w : Elixir Num) (e : ElixirEvent Num)
        → IsSound w
        → w.on_page ≡ false
        → Still w (step js parse w e)
    unfolding step
    step-Still w click_check c h = either-Still w w.on_page _ _ (λ e. absurd (cc)) (refl, refl, h)
    step-Still w click_toggle c h = either-Still w w.on_page _ _ (λ e. absurd (cc)) (refl, refl, h)
    step-Still w click_connect c h =
        either-Still w (w.on_page && not w.ws_connected && not w.auto_reconnect) _ _
          (λ e. absurd (ground (arith, e, h))) (refl, refl, h)
    step-Still w click_disconnect c h =
        either-Still w (w.on_page && w.ws_connected) _ _ (λ e. absurd (ground (arith, e, h)))
          (refl, refl, h)
    step-Still w (answer i answers) c h = elim (Option-cases (get_elem? w.checks i)) [
      | inl e ↦ rw (e, step) (refl, refl, h)
      | inr (t, e) ↦
          rw (e, step) (set_check-Still w i (advance (resume t answers) w.elixir_status) h)
    ]
    step-Still w (on_open i) c h =
        either-Still w (is_opening (w.ready i)) _ _
          (λ e. dead_opening (w.ready i) ((c.left h).1 i) e) (refl, refl, h)
    step-Still w (on_close i) c h =
        either-Still w (is_closed (w.ready i)) _ _ (λ e. (refl, refl, h))
          (on_closed-Still (set_ready i closed w) h)
    step-Still w (on_error i) c h =
        either-Still w (is_closed (w.ready i)) _ _ (λ e. (refl, refl, h)) (refl, refl, h)
    step-Still w (on_message i text now) c h =
        either-Still w (is_open (w.ready i)) _ _ (λ e. dead_open (w.ready i) ((c.left h).1 i) e)
          (refl, refl, h)
    step-Still w (timeout t) c h =
        either-Still w (member t w.timeouts) _ _
          (λ e. reconnect-Still (record w { timeouts = without t w.timeouts }) h (c.left h).0)
          (refl, refl, h)
    step-Still w (interval t) c h =
        either-Still w (member t w.intervals) _ _ (λ e. tick-Still w.ws w h (c.left h).1)
          (refl, refl, h)
    step-Still w leave c h = either-Still w w.on_page _ _ (λ e. absurd (cc)) (refl, refl, h)

    run-Still :
        (events : List (ElixirEvent Num)) (w : Elixir Num)
        → IsSound w
        → w.on_page ≡ false
        → Still w (run js parse w events)
    unfolding run
    run-Still [] w c h = (refl, refl, h)
    run-Still (e ∷ events) w c h =
        let first = step-Still w e c h in
        let later = run-Still events (step js parse w e) (step-IsSound js parse w e c) first.2 in
        (later.0 ∙ first.0, later.1 ∙ first.1, later.2)

    -- After any events, a socket that is opening or open is the one that the panel holds; the
    -- backoff is a whole number of seconds from 3 to 30; the refs of the messages that were sent
    -- ascend; and if the panel was left, no socket is opening or open and reconnecting is off.
    pub elixir-IsSound :
        (events : List (ElixirEvent Num)) → IsSound (run js parse new_elixir events)
    elixir-IsSound events = run-IsSound js parse events new_elixir (new_elixir-IsSound js parse)

    -- Once the panel is left, whatever timers fire and whatever its sockets still hear, no socket
    -- is made, nothing is sent and none is opening or open.
    pub left-still :
        (events later : List (ElixirEvent Num))
        → let w = run js parse new_elixir events in
          let v = run js parse w later in
          w.on_page ≡ false → (v.made ≡ w.made) × (v.sent ≡ w.sent) × NoneLive v.ready
    left-still events later h =
        let c = elixir-IsSound events in
        let w = run js parse new_elixir events in
        let still = run-Still later w c h in
        (still.0, still.1, ((run-IsSound js parse later w c).left still.2).1)

    -- What an unwanted close makes of the panel.
    abbrev interrupted : Elixir Num → Elixir Num
    interrupted w = record (clear_timer w.heartbeat_timer w) {
      ws_connected = false;
      ws_log = decimal (w.reconnect_delay / 1000) ++ codes "s 후 재연결 시도...";
      reconnect_timer = w.next_timer;
      next_timer = suc w.next_timer;
      timeouts = w.next_timer ∷ without w.heartbeat_timer w.timeouts;
    }

    step-on_close :
        (w : Elixir Num) (i : ℕ)
        → w.ready i ≡ closing
        → w.auto_reconnect ≡ true
        → w.intentional_close ≡ false
        → step js parse w (on_close i) ≡ interrupted (set_ready i closed w)
    unfolding step on_closed
    step-on_close w i h auto wanted =
        if_false (is_closed (w.ready i)) _ _ (ap is_closed h)
        ∙ if_true (not w.intentional_close) _ _ (ap not wanted)
        ∙ if_false (not w.auto_reconnect || w.intentional_close) _ _ (ground (arith, auto, wanted))

    step-timeout :
        (w : Elixir Num) (t : ℕ) (ts : List ℕ)
        → w.auto_reconnect ≡ true
        → w.intentional_close ≡ false
        → w.timeouts ≡ t ∷ ts
        → step js parse w (timeout t)
          ≡ connect_ws (record w {
            timeouts = without t w.timeouts;
            reconnect_delay = min (w.reconnect_delay * 2) 30000;
          })
    unfolding step reconnect member
    step-timeout w t ts auto wanted set =
        if_true (member t w.timeouts) _ _ (rw set (ground arith))
        ∙ if_true (w.auto_reconnect && not w.intentional_close) _ _ (ground (arith, auto, wanted))

    -- With auto-reconnect on, the close event of a socket that was replaced marks the panel as not
    -- connected while its new socket is open, and the timer that it sets closes that one for
    -- another.
    pub late_close :
        (w : Elixir Num) (i j : ℕ)
        → w.auto_reconnect ≡ true
        → w.intentional_close ≡ false
        → w.ready i ≡ closing
        → w.ws ≡ some j
        → w.ready j ≡ ready_open
        → j < w.made
        → let v = step js parse w (on_close i) in
          let u = step js parse v (timeout w.next_timer) in
          (v.ws_connected ≡ false)
          × (v.ready j ≡ ready_open)
          × (u.ready j ≡ closing)
          × (u.ws ≡ some w.made)
    unfolding connect_ws
    late_close w i j auto wanted old held live below =
        let v_is = step-on_close w i old auto wanted in
        let u_is =
          ap (λ x. step js parse x (timeout w.next_timer)) v_is
          ∙ step-timeout (interrupted (set_ready i closed w)) w.next_timer
              (without w.heartbeat_timer w.timeouts) auto wanted refl in
        let stays = if_false (j == i) closed (w.ready j) (distinct w.ready i j old live) ∙ live in
        (
          ap (λ (x : Elixir Num). x.ws_connected) v_is,
          ap (λ (x : Elixir Num). x.ready j) v_is ∙ stays,
          ap (λ (x : Elixir Num). x.ready j) u_is
              ∙ if_false (j == w.made) opening _ (ground (arith, below))
              ∙ close_socket-at w.ws (set_ready i closed w).ready j held
              ∙ ap after_close stays,
          ap (λ (x : Elixir Num). x.ws) u_is,
        )
