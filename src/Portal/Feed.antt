-- ===== src/Portal/Feed.antt =====
-- The order feed of the dashboard page: `connectOrderFeed`, the listeners of its WebSocket, and the
-- cleanup that `onMount` returns. Each step is one event of the browser.
pub mod Alive
pub mod History
pub mod Left
use polyglot_infinity.Prelude.{
  ℕ, zero, suc, ◌-◌, Bool, true, false, not, ◌&&◌, ◌||◌, Option, none, some, List, [], ◌∷◌, ◌++◌,
  if◌then◌else◌, ◌==◌, take, Text,
}

pub data WsStatus : Type 0 where
  connecting connected disconnected error : WsStatus

-- Sockets are told apart by a number. The browser's side: how many were made, those whose close
-- event is still to come, those of them that `close()` was called on, and the timers that are set.
pub record Feed (E : Type 0) : Type 0 where
  pub ws_status : WsStatus
  pub order_events : List E
  pub ws_conn : Option ℕ
  pub made : ℕ
  pub live : List ℕ
  pub closing : List ℕ
  pub timers : ℕ

pub data FeedEvent : Type 0 where
  on_open : ℕ → FeedEvent
  on_message : ℕ → Text → FeedEvent
  on_close : ℕ → FeedEvent
  on_error : ℕ → FeedEvent
  -- A timer of `setTimeout(connectOrderFeed, 3000)` fires.
  timeout : FeedEvent
  -- The page is left, and the cleanup runs.
  leave : FeedEvent

unfoldable pub member : ℕ → List ℕ → Bool
member i [] = false
member i (j ∷ js) = i == j || member i js

unfoldable pub without : ℕ → List ℕ → List ℕ
without i [] = []
without i (j ∷ js) = if i == j then without i js else j ∷ without i js

module _ {E : Type 0} where
  unfoldable pub connect_order_feed : Feed E → Feed E
  connect_order_feed w = record w {
    ws_status = connecting;
    ws_conn = some w.made;
    made = suc w.made;
    live = w.made ∷ w.live;
  }

  -- The page before it is mounted, and `onMount`.
  abbrev pub new_feed : Feed E
  new_feed = record {
    ws_status = disconnected;
    order_events = [];
    ws_conn = none;
    made = 0;
    live = [];
    closing = [];
    timers = 0;
  }

  unfoldable pub mounted : Feed E
  unfolding connect_order_feed
  mounted = connect_order_feed new_feed

  -- A socket gets `open` and `message` events until it closes or is told to.
  unfoldable pub hears : Feed E → ℕ → Bool
  unfolding member
  hears w i = member i w.live && not (member i w.closing)

  -- `ws.onmessage` behind `JSON.parse`; `none` where that throws.
  unfoldable pub receive : Option E → Feed E → Feed E
  receive none w = w
  receive (some parsed) w = record w { order_events = take 50 (parsed ∷ w.order_events) }

  unfoldable pub close_conn : Option ℕ → Feed E → Feed E
  close_conn none w = w
  close_conn (some i) w = record w { closing = i ∷ w.closing }

  unfoldable pub fire : ℕ → Feed E → Feed E
  unfolding connect_order_feed
  fire zero w = w
  fire (suc k) w = connect_order_feed (record w { timers = k })

  -- What `ws.onclose` does.
  unfoldable pub closed : ℕ → Feed E → Feed E
  unfolding without
  closed i w = record w {
    ws_status = disconnected;
    ws_conn = none;
    live = without i w.live;
    timers = suc w.timers;
  }

  -- `JSON.parse` is a parameter.
  module _ (parse : Text → Option E) where
    -- Events that the browser does not send leave the page as it is.
    unfoldable pub step : Feed E → FeedEvent → Feed E
    unfolding hears receive close_conn fire closed member
    step w (on_open i) = if hears w i then record w { ws_status = connected } else w
    step w (on_message i text) = if hears w i then receive (parse text) w else w
    step w (on_close i) = if member i w.live then closed i w else w
    step w (on_error i) = if member i w.live then record w { ws_status = error } else w
    step w timeout = fire w.timers w
    step w leave = close_conn w.ws_conn w

    unfoldable pub run : Feed E → List FeedEvent → Feed E
    unfolding step
    run w [] = w
    run w (e ∷ events) = run (step w e) events
