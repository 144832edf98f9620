-- ===== src/Portal/Feed/Alive.antt =====
-- The feed never stops: a socket or a timer, and not both.
use polyglot_infinity.Prelude.{
  ℕ, zero, suc, ◌≡◌, ◌≢◌, ◌⊎◌, inl, inr, refl, true, Option, none, some, List, [], ◌∷◌, arith, Text,
  Bool-cases, ap, ◌∙◌,
}
use polyglot_infinity.Portal.Feed.{
  WsStatus, connected, disconnected, error, Feed, FeedEvent, on_open, on_message, on_close,
  on_error, timeout, leave, member, without, connect_order_feed, mounted, hears, receive,
  close_conn, fire, closed, step, run,
}

module _ {E : Type 0} where
  -- One socket is live, the page has it, and no timer is set.
  pub record HasSocket (w : Feed E) : Type 0 where
    pub socket : ℕ
    pub live : w.live ≡ socket ∷ []
    pub ws_conn : w.ws_conn ≡ some socket
    pub timers : w.timers ≡ 0
    pub ws_status : w.ws_status ≢ disconnected

  -- No socket is live, and one timer is set.
  pub record HasTimer (w : Feed E) : Type 0 where
    pub live : w.live ≡ []
    pub ws_conn : w.ws_conn ≡ none
    pub timers : w.timers ≡ 1
    pub ws_status : w.ws_status ≡ disconnected

  abbrev pub IsAlive : Feed E → Type 0
  IsAlive w = HasSocket w ⊎ HasTimer w

  mounted-IsAlive : IsAlive mounted
  unfolding mounted
  mounted-IsAlive =
      inl (record { socket = 0; live = refl; ws_conn = refl; timers = refl; ws_status = cc })

  receive-IsAlive : (o : Option E) (w : Feed E) → IsAlive w → IsAlive (receive o w)
  unfolding receive
  receive-IsAlive none w h = h
  receive-IsAlive (some parsed) w (inl h) = inl (record {
    socket = h.socket;
    live = h.live;
    ws_conn = h.ws_conn;
    timers = h.timers;
    ws_status = h.ws_status;
  })
  receive-IsAlive (some parsed) w (inr h) =
      inr
        (record { live = h.live; ws_conn = h.ws_conn; timers = h.timers; ws_status = h.ws_status })

  close_conn-IsAlive : (o : Option ℕ) (w : Feed E) → IsAlive w → IsAlive (close_conn o w)
  unfolding close_conn
  close_conn-IsAlive none w h = h
  close_conn-IsAlive (some i) w (inl h) = inl (record {
    socket = h.socket;
    live = h.live;
    ws_conn = h.ws_conn;
    timers = h.timers;
    ws_status = h.ws_status;
  })
  close_conn-IsAlive (some i) w (inr h) =
      inr
        (record { live = h.live; ws_conn = h.ws_conn; timers = h.timers; ws_status = h.ws_status })

  -- A live socket takes another status.
  with_status :
      (s : WsStatus) (i : ℕ) (w : Feed E)
      → s ≢ disconnected
      → member i w.live ≡ true
      → IsAlive w
      → IsAlive (record w { ws_status = s })
  unfolding member
  with_status s i w other here (inl h) = inl (record {
    socket = h.socket;
    live = h.live;
    ws_conn = h.ws_conn;
    timers = h.timers;
    ws_status = other;
  })
  with_status s i w other here (inr h) = absurd (cc (ap (member i) h.live, here))

  -- The only live socket closes.
  closed-IsAlive : (i : ℕ) (w : Feed E) → member i w.live ≡ true → IsAlive w → IsAlive (closed i w)
  unfolding closed member without
  closed-IsAlive i w here (inl h) =
      let found : member i (h.socket ∷ []) ≡ true = rw h.live at here in
      let emptied : without i (h.socket ∷ []) ≡ [] = ground arith in
      inr (record {
        live = ap (without i) h.live ∙ emptied;
        ws_conn = refl;
        timers = ap suc h.timers;
        ws_status = refl;
      })
  closed-IsAlive i w here (inr h) = absurd (cc (ap (member i) h.live, here))

  fire-IsAlive : (w : Feed E) → IsAlive w → (k : ℕ) → w.timers ≡ k → IsAlive (fire k w)
  unfolding fire connect_order_feed
  fire-IsAlive w h zero e = h
  fire-IsAlive w (inl h) (suc k) e = absurd (omega (arith, h.timers))
  fire-IsAlive w (inr h) (suc k) e = inl (record {
    socket = w.made;
    live = ap (◌∷◌ w.made) h.live;
    ws_conn = refl;
    timers = omega (arith, h.timers);
    ws_status = cc;
  })

  module _ (parse : Text → Option E) where
    step-IsAlive : (w : Feed E) (e : FeedEvent) → IsAlive w → IsAlive (step parse w e)
    unfolding step hears
    step-IsAlive w (on_open i) h = elim (Bool-cases (hears w i)) [
      | inl e ↦ rw (e, step) (with_status connected i w (cc) (ground arith) h)
      | inr e ↦ rw (e, step) h
    ]
    step-IsAlive w (on_message i text) h = elim (Bool-cases (hears w i)) [
      | inl e ↦ rw (e, step) (receive-IsAlive (parse text) w h)
      | inr e ↦ rw (e, step) h
    ]
    step-IsAlive w (on_close i) h = elim (Bool-cases (member i w.live)) [
      | inl e ↦ rw (e, step) (closed-IsAlive i w e h)
      | inr e ↦ rw (e, step) h
    ]
    step-IsAlive w (on_error i) h = elim (Bool-cases (member i w.live)) [
      | inl e ↦ rw (e, step) (with_status error i w (cc) e h)
      | inr e ↦ rw (e, step) h
    ]
    step-IsAlive w timeout h = fire-IsAlive w h w.timers refl
    step-IsAlive w leave h = close_conn-IsAlive w.ws_conn w h

    run-IsAlive_from :
        (w : Feed E) (events : List FeedEvent) → IsAlive w → IsAlive (run parse w events)
    unfolding run
    run-IsAlive_from w [] h = h
    run-IsAlive_from w (e ∷ events) h =
        run-IsAlive_from (step parse w e) events (step-IsAlive w e h)

    -- After the mount and any events, also when the page is left: either exactly one socket is
    -- live, the page holds it and no timer is set, or none is live, exactly one timer is set, and
    -- the status is disconnected, which it is in no other case.
    pub run-IsAlive : (events : List FeedEvent) → IsAlive (run parse mounted events)
    run-IsAlive events = run-IsAlive_from mounted events mounted-IsAlive
