-- ===== src/MarketData/Realtime/Stopped.antt =====
-- What a client does once it has been stopped.
use event_probability_termin.Base.{
  ◌≡◌, refl, Bool, true, false, ◌&&◌, List, [], ◌∷◌, ◌++◌, all, arith,
}
use event_probability_termin.MarketData.Realtime.{
  ClientOptions, Client, Event, Action, open_client, stop, on_stale_timeout, on_reconnect_timeout,
  on_tick_message, on_close, handle, run_events,
}

module _ {F : Type 0} where
  -- Not the call of `start`.
  abbrev pub is_passive : Event F → Bool
  is_passive Event.start_call = false
  is_passive _ = true

  -- Neither opens a socket nor sets a timer.
  abbrev pub is_quiet : Action F → Bool
  is_quiet (Action.open_socket socket url) = false
  is_quiet (Action.set_timeout timer delay) = false
  is_quiet (Action.set_interval timer period) = false
  is_quiet _ = true

  all-append :
      (xs ys : List (Action F)) → all is_quiet (xs ++ ys) ≡ (all is_quiet xs && all is_quiet ys)
  all-append [] ys = refl
  all-append (x ∷ xs) ys = ground (arith, all-append xs ys)

  module _ (options : ClientOptions) where
    abbrev StaysStopped : Client → (Client × List (Action F)) → Type 0
    StaysStopped c (next, actions) =
        (next.closed_by_user ≡ true) × (next.sockets ≡ c.sockets) × (all is_quiet actions ≡ true)

    handle-StaysStopped :
        (e : Event F) (c : Client)
        → is_passive e ≡ true
        → c.closed_by_user ≡ true
        → StaysStopped c (handle options e c)
    unfolding handle open_client stop on_stale_timeout on_reconnect_timeout on_tick_message on_close
    handle-StaysStopped e c passive closed = ground arith

    run-StaysStopped :
        (es : List (Event F)) (c : Client)
        → all is_passive es ≡ true
        → c.closed_by_user ≡ true
        → StaysStopped c (run_events options es c)
    unfolding run_events
    run-StaysStopped [] c passive closed = (closed, refl, refl)
    run-StaysStopped (e ∷ es) c passive closed =
        let here = handle-StaysStopped e c (ground arith) closed in
        let next = (handle options e c).0 in
        let rest = run-StaysStopped es next (ground arith) here.0 in
        let split = all-append (handle options e c).1 (run_events options es next).1 in
        ground (arith, here, rest, split)

    -- Whatever happens once a client has been stopped, sockets that close late and timers that run out
    -- included, it opens no socket and sets no timer until it is started again.
    pub stopped_client-StaysStopped :
        (es : List (Event F)) (c : Client)
        → all is_passive es ≡ true
        → let stopped = (stop {F = F} options c).0 in
          let (after, actions) = run_events options es stopped in
          (after.sockets ≡ c.sockets) × (all is_quiet actions ≡ true)
    unfolding stop
    stopped_client-StaysStopped es c passive =
        let stopped = (stop {F = F} options c).0 in
        let rest = run-StaysStopped es stopped passive refl in (rest.1, rest.2)
