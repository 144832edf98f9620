-- ===== src/Panels/Elixir.antt =====
-- portal-svelte/src/lib/components/panels/ElixirPanel.svelte: the panel's WebSocket with its timers,
-- a step for each event of the browser.
pub mod Readiness
pub mod Laws
pub mod Sockets
use polyglot_infinity.Prelude.{
  ℕ, suc, ◌+◌, ◌*◌, ◌/◌, min, Bool, true, false, not, ◌&&◌, ◌||◌, Option, none, some, List, [], ◌∷◌,
  ◌++◌, if◌then◌else◌, ◌==◌, get_elem?, Text, text_eq, codes,
}
use polyglot_infinity.Js.Value.{Json, null, str, arr, obj, field, end}
use polyglot_infinity.Js.Decimal.{decimal}
use polyglot_infinity.Js.Spread.{item}
use polyglot_infinity.Js.Async.{Call, Async, bind, try_catch, assign, fetch, json, is_ok}
use polyglot_infinity.Portal.Feed.{member, without}
use polyglot_infinity.Panels.Machine.{
  Rest, finished, crashed, waiting, advance, Answer, resume, remove_at, set_elem,
}
use polyglot_infinity.Panels.Setting.{Setting, api}

-- `readyState`. A number that no socket has yet counts as closed.
pub data Ready : Type 0 where
  opening ready_open closing closed : Ready

-- A message on the wire: the join of the lobby, or a heartbeat, with its ref.
pub data Message : Type 0 where
  phx_join heartbeat : ℕ → Message

-- The variables of the script, where a snapshot of `none` is null or undefined; then the browser's side: the sockets that were made, timers that are
-- set, what was sent, newest first, the status requests that are out, and whether the panel is there.
pub record Elixir (Num : Type 0) : Type 0 where
  pub elixir_status : Json Num
  pub live_snapshot : Option (Json Num)
  pub ws_connected : Bool
  pub ws_log : Text
  pub snapshot_count : ℕ
  pub auto_reconnect : Bool
  pub ws : Option ℕ
  pub heartbeat_timer : ℕ
  pub reconnect_timer : ℕ
  pub reconnect_delay : ℕ
  pub ref_counter : ℕ
  pub intentional_close : Bool
  pub made : ℕ
  pub ready : ℕ → Ready
  pub next_timer : ℕ
  pub timeouts : List ℕ
  pub intervals : List ℕ
  pub sent : List Message
  pub checks : List (Async Num (Json Num) (Unit {0}))
  pub on_page : Bool

pub data ElixirEvent (Num : Type 0) : Type 0 where
  click_check click_toggle click_connect click_disconnect : ElixirEvent Num
  -- A status request goes on.
  answer : ℕ → Answer Num → ElixirEvent Num
  on_open on_close on_error : ℕ → ElixirEvent Num
  -- A message, at a time of day.
  on_message : ℕ → Text → Text → ElixirEvent Num
  timeout interval : ℕ → ElixirEvent Num
  leave : ElixirEvent Num

abbrev pub is_opening : Ready → Bool
is_opening opening = true
is_opening _ = false

abbrev pub is_open : Ready → Bool
is_open ready_open = true
is_open _ = false

abbrev pub is_closed : Ready → Bool
is_closed closed = true
is_closed _ = false

-- What `close()` makes of a socket's state.
abbrev pub after_close : Ready → Ready
after_close closed = closed
after_close _ = closing

-- `ws?.close()` for the value of `ws`.
unfoldable pub close_socket : Option ℕ → (ℕ → Ready) → ℕ → Ready
close_socket none ready j = ready j
close_socket (some i) ready j = if j == i then after_close (ready i) else ready j

-- `ws?.send(…)` for the value of `ws`: a socket that is closing or closed takes no message, and one
-- that is opening throws.
unfoldable pub with_message : Option ℕ → (ℕ → Ready) → Message → List Message → List Message
with_message none ready m sent = sent
with_message (some i) ready m sent = if is_open (ready i) then m ∷ sent else sent

unfoldable pub ws_throws : Option ℕ → (ℕ → Ready) → Bool
ws_throws none ready = false
ws_throws (some i) ready = is_opening (ready i)

module _ {Num : Type 0} where
  abbrev pub new_elixir : Elixir Num
  new_elixir = record {
    elixir_status = null;
    live_snapshot = none;
    ws_connected = false;
    ws_log = codes "";
    snapshot_count = 0;
    auto_reconnect = false;
    ws = none;
    heartbeat_timer = 0;
    reconnect_timer = 0;
    reconnect_delay = 3000;
    ref_counter = 1;
    intentional_close = false;
    made = 0;
    ready = λ i. closed;
    next_timer = 1;
    timeouts = [];
    intervals = [];
    sent = [];
    checks = [];
    on_page = true;
  }

  abbrev pub set_ready : ℕ → Ready → Elixir Num → Elixir Num
  set_ready i r w = record w { ready = λ j. if j == i then r else w.ready j }

  -- `clearTimeout` and `clearInterval`, which share their numbers.
  abbrev pub clear_timer : ℕ → Elixir Num → Elixir Num
  clear_timer t w = record w { timeouts = without t w.timeouts; intervals = without t w.intervals }

  abbrev pub close_ws : Elixir Num → Elixir Num
  close_ws w = record w { ready = close_socket w.ws w.ready }

  abbrev pub ws_send : Message → Elixir Num → Elixir Num
  ws_send m w = record w { sent = with_message w.ws w.ready m w.sent }

  -- `wsLog = …; reconnectTimer = setTimeout(…, reconnectDelay);`
  abbrev pub schedule_reconnect : Elixir Num → Elixir Num
  schedule_reconnect w = if not w.auto_reconnect || w.intentional_close then w else record w {
    ws_log = decimal (w.reconnect_delay / 1000) ++ codes "s 후 재연결 시도...";
    reconnect_timer = w.next_timer;
    next_timer = suc w.next_timer;
    timeouts = w.next_timer ∷ w.timeouts;
  }

  unfoldable pub connect_ws : Elixir Num → Elixir Num
  unfolding close_socket without
  connect_ws w =
      let v = close_ws (record (clear_timer w.reconnect_timer w) { intentional_close = false }) in
      set_ready v.made opening
        (record v { ws = some v.made; made = suc v.made; ws_log = codes "연결 시도 중..." })

  -- The callback of the reconnect timer.
  unfoldable pub reconnect : Elixir Num → Elixir Num
  unfolding connect_ws
  reconnect w =
      if w.auto_reconnect && not w.intentional_close
      then connect_ws (record w { reconnect_delay = min (w.reconnect_delay * 2) 30000 })
      else w

  -- `heartbeatTimer = setInterval(…, 30_000)`.
  abbrev pub start_heartbeat : Elixir Num → Elixir Num
  start_heartbeat w = record w {
    heartbeat_timer = w.next_timer;
    next_timer = suc w.next_timer;
    intervals = w.next_timer ∷ w.intervals;
  }

  -- `ws.onopen`.
  unfoldable pub opened : Elixir Num → Elixir Num
  unfolding with_message ws_throws
  opened w =
      let v = record w {
        ws_connected = true;
        reconnect_delay = 3000;
        ws_log = codes "WebSocket 연결됨 ✅";
        ref_counter = suc w.ref_counter;
      } in
      if ws_throws v.ws v.ready then v else start_heartbeat (ws_send (phx_join w.ref_counter) v)

  -- The callback of the interval. Without a socket the ref is not taken.
  unfoldable pub tick : Option ℕ → Elixir Num → Elixir Num
  unfolding with_message
  tick none w = w
  tick (some i) w = ws_send (heartbeat w.ref_counter) (record w { ref_counter = suc w.ref_counter })

  -- `ws.onmessage` with the event and the payload of the message, at a time of day.
  unfoldable pub take_event : Option (Json Num) → Option (Json Num) → Text → Elixir Num → Elixir Num
  unfolding text_eq
  take_event (some (str e)) payload now w =
      if text_eq e (codes "snapshot")
      then record w {
        live_snapshot = payload;
        snapshot_count = suc w.snapshot_count;
        ws_log =
            codes "마지막 수신: " ++ now ++ codes " (총 " ++ decimal (suc w.snapshot_count) ++ codes "회)";
      }
      else w
  take_event _ payload now w = w

  -- `ws.onmessage` behind `JSON.parse`; anything but an array has no snapshot, or throws.
  unfoldable pub received : Option (Json Num) → Text → Elixir Num → Elixir Num
  unfolding take_event item
  received (some (arr vs)) now w = take_event (item 3 vs) (item 4 vs) now w
  received _ now w = w

  -- `ws.onclose`.
  unfoldable pub on_closed : Elixir Num → Elixir Num
  unfolding without
  on_closed w =
      let v = record (clear_timer w.heartbeat_timer w) { ws_connected = false } in
      if not v.intentional_close
      then schedule_reconnect (record v { ws_log = codes "연결 끊김 — 재연결 대기..." })
      else record v { ws_log = codes "연결 해제됨" }

  unfoldable pub toggle_auto_reconnect : Elixir Num → Elixir Num
  unfolding connect_ws close_socket without
  toggle_auto_reconnect w =
      if not w.auto_reconnect
      then connect_ws (record w { auto_reconnect = true; reconnect_delay = 3000 })
      else record (close_ws (clear_timer w.reconnect_timer w)) {
        auto_reconnect = false;
        intentional_close = true;
        ws = none;
        ws_connected = false;
        ws_log = codes "자동 재연결 OFF — 수동 연결 사용하세요";
      }

  unfoldable pub disconnect_ws : Elixir Num → Elixir Num
  unfolding close_socket without
  disconnect_ws w =
      record (clear_timer w.heartbeat_timer (close_ws (clear_timer w.reconnect_timer w))) {
        intentional_close = true;
        ws = none;
        ws_connected = false;
        ws_log = codes "연결 해제됨";
      }

  -- `onDestroy`; `ws` keeps its value.
  unfoldable pub destroy : Elixir Num → Elixir Num
  unfolding close_socket without
  destroy w = record (close_ws (clear_timer w.heartbeat_timer (clear_timer w.reconnect_timer w))) {
    intentional_close = true;
    on_page = false;
  }

  abbrev offline : Json Num
  offline = obj (field (codes "status") (str (codes "offline")) end)

  unfoldable pub check_elixir : Setting Num → Async Num (Json Num) (Unit {0})
  unfolding bind try_catch
  check_elixir js =
      try_catch
        (bind (fetch (api js (codes "/api/hub/status" ∷ []))) (λ res.
          if is_ok res then bind (json res) (λ v. assign (λ s. v)) else assign (λ s. offline)))
        (λ m. assign (λ s. offline))

  -- A status request that was started, or that went on.
  unfoldable pub add_check : Json Num × Rest Num (Json Num) → Elixir Num → Elixir Num
  add_check (v, waiting t) w = record w { elixir_status = v; checks = w.checks ++ t ∷ [] }
  add_check (v, _) w = record w { elixir_status = v }

  unfoldable pub set_check : ℕ → Json Num × Rest Num (Json Num) → Elixir Num → Elixir Num
  set_check i (v, waiting t) w = record w { elixir_status = v; checks = set_elem i t w.checks }
  set_check i (v, _) w = record w { elixir_status = v; checks = remove_at i w.checks }

  -- `JSON.parse` is a parameter.
  module _ (js : Setting Num) (parse : Text → Option (Json Num)) where
    -- Events that the browser does not send leave everything as it is.
    unfoldable pub step : Elixir Num → ElixirEvent Num → Elixir Num
    unfolding connect_ws reconnect opened tick take_event received on_closed toggle_auto_reconnect
        disconnect_ws destroy check_elixir add_check set_check advance resume member without
    step w click_check =
        if w.on_page then add_check (advance (check_elixir js) w.elixir_status) w else w
    step w click_toggle = if w.on_page then toggle_auto_reconnect w else w
    step w click_connect =
        if w.on_page && not w.ws_connected && not w.auto_reconnect then connect_ws w else w
    step w click_disconnect = if w.on_page && w.ws_connected then disconnect_ws w else w
    step w (answer i answers) = elim (get_elem? w.checks i) [
      | none ↦ w
      | some t ↦ set_check i (advance (resume t answers) w.elixir_status) w
    ]
    step w (on_open i) = if is_opening (w.ready i) then opened (set_ready i ready_open w) else w
    step w (on_close i) = if is_closed (w.ready i) then w else on_closed (set_ready i closed w)
    step w (on_error i) =
        if is_closed (w.ready i)
        then w
        else record w { ws_log = codes "연결 실패 — Elixir 서버(:4000)를 먼저 실행하세요" }
    step w (on_message i text now) = if is_open (w.ready i) then received (parse text) now w else w
    step w (timeout t) =
        if member t w.timeouts then reconnect (record w { timeouts = without t w.timeouts }) else w
    step w (interval t) = if member t w.intervals then tick w.ws w else w
    step w leave = if w.on_page then destroy w else w

    unfoldable pub run : Elixir Num → List (ElixirEvent Num) → Elixir Num
    unfolding step
    run w [] = w
    run w (e ∷ events) = run (step w e) events
