-- ===== src/MarketData/Realtime/Bounded.antt =====
-- How often a client reconnects.
use event_probability_termin.Base.{
  ℕ, suc, ◌+◌, ◌-◌, ◌≤◌, ◌≡◌, Bool, true, false, not, List, [], ◌∷◌, all, filter, length,
  length-filter-le, arith, Option, none, some, Bool-cases, inl, inr, ◌==◌,
}
use event_probability_termin.MarketData.Realtime.{
  ClientOptions, Client, Event, is_running, clear, open_client, stop, on_stale_timeout,
  on_reconnect_timeout, on_close, handle, run_events,
}

-- A timer that runs out is gone.
clear_running :
    (timer : ℕ) (running : List ℕ)
    → is_running timer running ≡ true
    → suc (length (filter (λ t. not (t == timer)) running)) ≤ length running
clear_running timer [] h = absurd (ground arith)
clear_running timer (t ∷ ts) h =
    let few = length-filter-le (λ s. not (s == timer)) ts in
    ground (arith, few, clear_running timer ts)

clear_le : (running : List ℕ) (o : Option ℕ) → length (clear o running) ≤ length running
clear_le running none = omega arith
clear_le running (some timer) = length-filter-le (λ t. not (t == timer)) running

-- The sockets that were opened, and those that may still be.
abbrev pub potential : ClientOptions → Client → ℕ
potential options c =
    c.sockets + length c.running_reconnect + (options.max_reconnects - c.reconnect_count)

module _ {F : Type 0} where
  -- Neither a call of `start` nor a message with a tick.
  abbrev pub is_dry : Event F → Bool
  is_dry Event.start_call = false
  is_dry (Event.tick_message socket now tick) = false
  is_dry _ = true

  module _ (options : ClientOptions) where
    handle-potential :
        (e : Event F) (c : Client)
        → is_dry e ≡ true
        → potential options (handle options e c).0 ≤ potential options c
    unfolding handle open_client stop on_stale_timeout on_reconnect_timeout on_close
    handle-potential Event.start_call c dry = absurd (ground arith)
    handle-potential Event.stop_call c dry =
        omega (arith, clear_le c.running_reconnect c.reconnect_timer)
    handle-potential (Event.stale_timeout timer now) c dry = ground arith
    handle-potential (Event.reconnect_timeout timer) c dry =
        elim (Bool-cases (is_running timer c.running_reconnect)) [
          | inl runs ↦ ground (arith, runs, clear_running timer c.running_reconnect runs)
          | inr gone ↦ ground (arith, gone)
        ]
    handle-potential (Event.socket_open socket) c dry = omega arith
    handle-potential (Event.tick_message socket now tick) c dry = absurd (ground arith)
    handle-potential (Event.bad_message socket reason) c dry = omega arith
    handle-potential (Event.socket_error socket) c dry = omega arith
    handle-potential (Event.socket_close socket) c dry = ground arith

    -- Without a new start and without a single tick, a client opens at most as many more sockets as
    -- there are reconnections set and left to it, however often its sockets close and its timers run
    -- out.
    pub reconnects-AreBounded :
        (es : List (Event F)) (c : Client)
        → all is_dry es ≡ true
        → (run_events options es c).0.sockets ≤ potential options c
    unfolding run_events
    reconnects-AreBounded [] c dry = omega arith
    reconnects-AreBounded (e ∷ es) c dry =
        let next = (handle options e c).0 in
        let here = handle-potential e c (ground arith) in
        let rest = reconnects-AreBounded es next (ground arith) in omega (arith, here, rest)
