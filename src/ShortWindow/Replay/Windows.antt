-- ===== src/ShortWindow/Replay/Windows.antt =====
-- Which windows are replayed, and what their signals can see.
use event_probability_termin.Base.{
  ℕ, zero, suc, ◌+◌, ◌-◌, ◌*◌, ◌/◌, ◌%◌, ◌≤◌, ◌<◌, ◌≡◌, refl, ap, inl, inr, List, [], ◌∷◌, map,
  arith, leb, Bool-cases, leb→le, filter, filter-filter_of_imp,
}
use event_probability_termin.Base.Number.{Number}
use event_probability_termin.Market.{Candle}
use event_probability_termin.ShortWindow.{
  ShortWindowInterval, ShortWindowContractRule, ShortWindowEvent,
}
use event_probability_termin.ShortWindow.Rules.{short_window_interval_ms}
use event_probability_termin.ShortWindow.Signal.{ShortWindowSignal}
use event_probability_termin.ShortWindow.Replay.{
  candle_close_ms, resolve_replay_result, replay_window, replay_from, replay_candles,
}

-- `n` windows of `ms` milliseconds, one after the other.
abbrev pub progression : (start ms n : ℕ) → List ℕ
progression start ms zero = []
progression start ms (suc n) = start ∷ progression (start + ms) ms n

div_step :
    (i : ShortWindowInterval) (c e : ℕ)
    → let ms = short_window_interval_ms i in c + ms ≤ e → (e - c) / ms ≡ suc ((e - (c + ms)) / ms)
unfolding short_window_interval_ms
div_step ShortWindowInterval.m5 c e h = omega arith
div_step ShortWindowInterval.m10 c e h = omega arith
div_step ShortWindowInterval.m15 c e h = omega arith

div_stop :
    (i : ShortWindowInterval) (c e : ℕ)
    → let ms = short_window_interval_ms i in e < c + ms → (e - c) / ms ≡ 0
unfolding short_window_interval_ms
div_stop ShortWindowInterval.m5 c e h = omega arith
div_stop ShortWindowInterval.m10 c e h = omega arith
div_stop ShortWindowInterval.m15 c e h = omega arith

interval_pos : (i : ShortWindowInterval) → 60_000 < short_window_interval_ms i
unfolding short_window_interval_ms
interval_pos ShortWindowInterval.m5 = omega arith
interval_pos ShortWindowInterval.m10 = omega arith
interval_pos ShortWindowInterval.m15 = omega arith

-- The first multiple from `start` on, and enough rounds from there to `end`.
start_bounds :
    (i : ShortWindowInterval) (start end : ℕ)
    → let ms = short_window_interval_ms i in
      let first = (start + (ms - 1)) / ms * ms in
      (first % ms ≡ 0) × (end < first + (end / ms + 1) * ms)
unfolding short_window_interval_ms
start_bounds ShortWindowInterval.m5 start end = omega arith
start_bounds ShortWindowInterval.m10 start end = omega arith
start_bounds ShortWindowInterval.m15 start end = omega arith

module _ {F : Type 0} ⦃N : Number F⦄ where
  resolve_replay_result-keeps :
      (event : ShortWindowEvent F) (signal : ShortWindowSignal F) (candles : List (Candle F))
      (checked_at : ℕ)
      → ((resolve_replay_result event signal candles checked_at).event ≡ event)
        × ((resolve_replay_result event signal candles checked_at).signal ≡ signal)
  unfolding resolve_replay_result
  resolve_replay_result-keeps event signal candles checked_at = ground arith

  module _ (candles : List (Candle F)) (checked_at : ℕ) (rule : ShortWindowContractRule) where
    abbrev interval_ms : ℕ
    interval_ms = short_window_interval_ms rule.interval

    replay_window-start :
        (cursor : ℕ) → (replay_window candles checked_at rule cursor).event.start_time ≡ cursor
    unfolding replay_window
    replay_window-start cursor =
        ap (λ e. e.start_time) (resolve_replay_result-keeps _ _ candles checked_at).0

    replay_from-starts :
        (end fuel cursor : ℕ)
        → end < cursor + fuel * interval_ms
        → map (λ r. r.event.start_time) (replay_from candles checked_at rule end fuel cursor)
          ≡ progression cursor interval_ms ((end - cursor) / interval_ms)
    unfolding replay_from
    replay_from-starts end zero cursor h =
        let e : (end - cursor) / interval_ms ≡ 0 =
          div_stop rule.interval cursor end (omega (arith, interval_pos rule.interval)) in
        rw e refl
    replay_from-starts end (suc fuel) cursor h =
        elim (Bool-cases (leb (cursor + interval_ms) end)) [
          | inl more ↦ rw (
            more,
            div_step rule.interval cursor end (leb→le _ _ more),
            replay_window-start cursor,
            replay_from-starts end fuel (cursor + interval_ms) (omega arith),
          )
          | inr done ↦ rw (done, div_stop rule.interval cursor end (ground arith)) refl
        ]

    -- The replay covers, in order, exactly the windows that begin at the first multiple of the
    -- interval from the start of the span on, follow one another without gap, and end by its end.
    pub replay_candles-starts :
        (window_start window_end : ℕ)
        → let first = (window_start + (interval_ms - 1)) / interval_ms * interval_ms in
          map
            (λ r. r.event.start_time)
            (replay_candles candles window_start window_end checked_at rule)
          ≡ progression first interval_ms ((window_end - first) / interval_ms)
    unfolding replay_candles
    replay_candles-starts window_start window_end =
        replay_from-starts window_end _ _ (start_bounds rule.interval window_start window_end).1

    -- The signal of a replayed window does not change when the candles that close after the signal
    -- time, one minute before the window ends, are taken away.
    pub signal-blind :
        (cursor : ℕ)
        → let signal_time = cursor + interval_ms - 60_000 in
          let known = filter (λ c. leb (candle_close_ms c) signal_time) candles in
          (replay_window known checked_at rule cursor).signal
          ≡ (replay_window candles checked_at rule cursor).signal
    unfolding replay_window
    signal-blind cursor =
        let signal_time = cursor + interval_ms - 60_000 in
        let closed = λ (c : Candle F). leb (candle_close_ms c) signal_time in
        rw (
          (resolve_replay_result-keeps _ _ candles checked_at).1,
          (resolve_replay_result-keeps _ _ (filter closed candles) checked_at).1,
          filter-filter_of_imp closed closed candles (λ c h. h),
        )
