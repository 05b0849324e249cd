-- ===== src/ShortWindow/Window/Phases.antt =====
-- The bounds of the current window and the order of its phases.
use event_probability_termin.Base.{
  ℕ, ◌+◌, ◌-◌, ◌*◌, ◌/◌, ◌%◌, ◌≤◌, ◌<◌, ◌≡◌, ◌≢◌, ◌⊎◌, ◌↔◌, true, false, some, arith, is_some,
}
use event_probability_termin.Base.Number.{Number}
use event_probability_termin.ShortWindow.{ShortWindowInterval, ShortWindowEventStatus}
use event_probability_termin.ShortWindow.Rules.{short_window_interval_ms}
use event_probability_termin.ShortWindow.Window.{
  BuildCurrentInput, event_status, resolve_short_window_phase, build_current_short_window_event,
}

-- The window of `ms` milliseconds around `now`, for each of the three lengths.
pub window_bounds :
    (i : ShortWindowInterval) (now : ℕ)
    → let ms = short_window_interval_ms i in
      (now / ms * ms % ms ≡ 0) × (now / ms * ms ≤ now) × (now < now / ms * ms + ms)
unfolding short_window_interval_ms
window_bounds ShortWindowInterval.m5 now = omega arith
window_bounds ShortWindowInterval.m10 now = omega arith
window_bounds ShortWindowInterval.m15 now = omega arith

module _ {F : Type 0} ⦃N : Number F⦄ (input : BuildCurrentInput F) where
  -- The current window starts at a multiple of its interval, lasts one interval, and contains the
  -- instant; the seconds remaining are the time to its end, rounded up, and the event is not closed.
  pub current_window :
      let event = build_current_short_window_event input in
      let ms = short_window_interval_ms input.interval in
      (event.start_time % ms ≡ 0)
      × (event.end_time ≡ event.start_time + ms)
      × (event.start_time ≤ input.now)
      × (input.now < event.end_time)
      × (event.end_time ≤ input.now + event.seconds_remaining * 1000)
      × (input.now + event.seconds_remaining * 1000 < event.end_time + 1000)
      × (event.status ≢ ShortWindowEventStatus.closed)
  unfolding build_current_short_window_event event_status
  current_window = ground (arith, window_bounds input.interval input.now)

  -- The phase of the current window, by the time since its start and the time to its end: forming in
  -- the first 30 seconds or without a start reference, else no-entry in the last 20 seconds, else
  -- decision zone in the last 120 seconds, and else open.
  pub current_phase :
      let event = build_current_short_window_event input in
      let elapsed = input.now - event.start_time in
      let remaining = event.end_time - input.now in
      let referenced = is_some event.start_reference_price ≡ true in
      ((event.status ≡ ShortWindowEventStatus.forming)
        ↔ ((elapsed < 30_000) ⊎ (is_some event.start_reference_price ≡ false)))
      × ((event.status ≡ ShortWindowEventStatus.no_entry_zone)
          ↔ (referenced × (30_000 ≤ elapsed) × (remaining ≤ 20_000)))
      × ((event.status ≡ ShortWindowEventStatus.decision_zone)
          ↔ (referenced × (30_000 ≤ elapsed) × (20_000 < remaining) × (remaining ≤ 120_000)))
      × ((event.status ≡ ShortWindowEventStatus.open_phase)
          ↔ (referenced × (30_000 ≤ elapsed) × (120_000 < remaining)))
  unfolding build_current_short_window_event event_status
  current_phase = ground (arith, window_bounds input.interval input.now)

abbrev pub phase_rank : ShortWindowEventStatus → ℕ
phase_rank ShortWindowEventStatus.forming = 0
phase_rank ShortWindowEventStatus.open_phase = 1
phase_rank ShortWindowEventStatus.decision_zone = 2
phase_rank ShortWindowEventStatus.no_entry_zone = 3
phase_rank ShortWindowEventStatus.closed = 4

-- With a start reference, the phases of a window never go back as time passes: forming, open,
-- decision zone, no-entry zone, closed.
pub phase_mono :
    (start_ms end_ms now later : ℕ)
    → now ≤ later
    → phase_rank (resolve_short_window_phase now start_ms end_ms (some true))
      ≤ phase_rank (resolve_short_window_phase later start_ms end_ms (some true))
unfolding resolve_short_window_phase
phase_mono start_ms end_ms now later h = ground arith
