-- ===== src/ShortWindow/Replay.antt =====
-- packages/research-signals/src/short-window/replay.ts: windows of the past are signalled as they
-- would have been, and settled by the candles that followed. `replayCandles`, `resolveReplayResult`
-- and what they call; the fetch of the candles is not here.
pub mod Outcomes
pub mod Windows
use Prim.Native.String
use mathlib.Core.Option
use event_probability_termin.Base.{
  ℕ, zero, suc, ◌+◌, ◌-◌, ◌*◌, ◌/◌, Option, none, some, Bool, true, false, List, [], ◌∷◌, map,
  String, ltb, leb, if◌then◌else◌, filter, first?, sort,
}
use event_probability_termin.Base.Number.{Number}
use event_probability_termin.Market.{DataSourceType, Candle, RealTimePriceTick}
use event_probability_termin.ShortWindow.{
  ShortWindowContractRule, ShortWindowEvent, ShortWindowSignalSide, ResolvedSide,
}
use event_probability_termin.ShortWindow.Rules.{short_window_interval_ms}
use event_probability_termin.ShortWindow.Settlement.{
  RuleOutcome, round_price, evaluate_short_window_rule_outcome,
}
use event_probability_termin.ShortWindow.Window.{build_current_short_window_event}
use event_probability_termin.ShortWindow.Signal.{ShortWindowSignal, generate_short_window_signal}

pub data OutcomeStatus : Type 0 where
  win loss wait rejected pending unresolved : OutcomeStatus

pub record ReplayOutcome (F : Type 0) : Type 0 where
  pub status : OutcomeStatus
  pub resolved_side : ResolvedSide
  pub start_reference_price : Option F
  pub end_reference_price : Option F
  pub resolved_at : Option ℕ
  pub counted_in_win_rate : Bool
  pub notes : List String

pub record ReplayResult (F : Type 0) : Type 0 where
  pub event : ShortWindowEvent F
  pub signal : ShortWindowSignal F
  pub outcome : ReplayOutcome F

-- `status === "WIN" || status === "LOSS" || status === "UNRESOLVED"`
abbrev is_resolved : OutcomeStatus → Bool
is_resolved OutcomeStatus.win = true
is_resolved OutcomeStatus.loss = true
is_resolved OutcomeStatus.unresolved = true
is_resolved _ = false

-- Whether the side that was taken is the side that came.
abbrev pub agrees : ShortWindowSignalSide → ResolvedSide → Bool
agrees ShortWindowSignalSide.long_up ResolvedSide.up = true
agrees ShortWindowSignalSide.long_down ResolvedSide.down = true
agrees _ _ = false

module _ {F : Type 0} ⦃N : Number F⦄ where
  unfoldable pub base_result :
      ShortWindowEvent F
      → ShortWindowSignal F
      → OutcomeStatus
      → ResolvedSide
      → Option F
      → Option F
      → Bool
      → List String
      → ReplayResult F
  base_result event signal status resolved_side start end counted notes = record {
    event = event;
    signal = signal;
    outcome = record {
      status = status;
      resolved_side = resolved_side;
      start_reference_price = start;
      end_reference_price = end;
      resolved_at = if is_resolved status then some event.end_time else none;
      counted_in_win_rate = counted;
      notes = notes;
    };
  }

  -- The result of a signal that took a side, once its rule has been evaluated.
  unfoldable pub judge : ShortWindowEvent F → ShortWindowSignal F → RuleOutcome F → ReplayResult F
  unfolding base_result
  judge event signal outcome =
      let start = outcome.start_reference_price in
      let end = outcome.end_reference_price in
      let open_result =
        base_result event signal OutcomeStatus.unresolved outcome.resolved_side start end false
          outcome.notes in
      let won = agrees signal.side outcome.resolved_side in
      let closed_result =
        base_result event signal (if won then OutcomeStatus.win else OutcomeStatus.loss)
          outcome.resolved_side start end true outcome.notes in
      elim outcome.resolved_side [
        | ResolvedSide.unknown ↦ open_result
        | ResolvedSide.tie ↦ open_result
        | _ ↦ closed_result
      ]

  unfoldable pub resolve_replay_result :
      ShortWindowEvent F → ShortWindowSignal F → List (Candle F) → ℕ → ReplayResult F
  unfolding judge
  resolve_replay_result event signal candles checked_at =
      let outcome =
        evaluate_short_window_rule_outcome event.rule event.start_time event.end_time
          event.start_reference_price candles in
      let idle = λ (status : OutcomeStatus) (note : String).
        base_result event signal status ResolvedSide.unknown none none false (note ∷ []) in
      let taken =
        if ltb checked_at event.end_time
        then idle OutcomeStatus.pending "Event window has not resolved yet."
        else judge event signal outcome in
      elim signal.side [
        | ShortWindowSignalSide.wait ↦
            idle OutcomeStatus.wait "WAIT signals are not included in win-rate denominator."
        | ShortWindowSignalSide.rejected ↦
            idle OutcomeStatus.rejected "Rejected signals are not included in win-rate denominator."
        | _ ↦ taken
      ]

  abbrev pub candle_close_ms : Candle F → ℕ
  candle_close_ms candle = candle.timestamp + candle.granularity * 1000

  unfoldable pub price_at_or_before : List (Candle F) → ℕ → Option F
  price_at_or_before candles time_ms =
      Option.map (λ c. round_price c.close)
        (first? (
          sort (λ a b. ltb (candle_close_ms b) (candle_close_ms a))
            (filter (λ c. leb (candle_close_ms c) time_ms) candles)))

  -- `price * 0.00001`
  abbrev margin : F → F
  margin price = N.mul price (N.dec 1 5)

  -- A tick of the replay itself.
  unfoldable pub synthetic_tick : ℕ → F → RealTimePriceTick F
  synthetic_tick time price = record {
    source_type = DataSourceType.live;
    price = price;
    bid_price = some (N.sub price (margin price));
    ask_price = some (N.add price (margin price));
    event_time = some time;
    received_at = time;
    latency_ms = some 5;
  }

  -- One round of the loop of `replayCandles`, for the window that starts at `cursor`.
  unfoldable pub replay_window : List (Candle F) → ℕ → ShortWindowContractRule → ℕ → ReplayResult F
  replay_window candles checked_at rule cursor =
      let interval_ms = short_window_interval_ms rule.interval in
      let signal_time = cursor + interval_ms - 60_000 in
      let pre_signal_candles = filter (λ c. leb (candle_close_ms c) signal_time) candles in
      let current_price = price_at_or_before pre_signal_candles signal_time in
      let tick = Option.map (synthetic_tick signal_time) current_price in
      let event = build_current_short_window_event (record {
        symbol = rule.symbol;
        interval = rule.interval;
        venue = rule.venue;
        now = signal_time;
        price_ticks = elim tick [ none ↦ [] | some t ↦ t ∷ [] ];
        candles = pre_signal_candles;
        rule = rule;
      }) in
      let signal = generate_short_window_signal event (record {
        candles = pre_signal_candles;
        price_tick = tick;
        bid = Option.map (λ p. N.sub p (margin p)) current_price;
        ask = Option.map (λ p. N.add p (margin p)) current_price;
        latency_ms = some 5;
        now = signal_time;
        stale_after_ms = some (3 * 60_000);
        min_confidence = none;
      }) in
      resolve_replay_result (record event { start_time = cursor; end_time = cursor + interval_ms })
        signal candles checked_at

  -- `for (cursor; cursor + intervalMs <= endMs; cursor += intervalMs)`, on fuel.
  unfoldable pub replay_from :
      List (Candle F)
      → ℕ
      → ShortWindowContractRule
      → (end_ms fuel cursor : ℕ) → List (ReplayResult F)
  replay_from candles checked_at rule end_ms zero cursor = []
  replay_from candles checked_at rule end_ms (suc fuel) cursor =
      let interval_ms = short_window_interval_ms rule.interval in
      let rest = replay_from candles checked_at rule end_ms fuel (cursor + interval_ms) in
      if leb (cursor + interval_ms) end_ms
      then replay_window candles checked_at rule cursor ∷ rest
      else []

  unfoldable pub replay_candles :
      List (Candle F)
      → (window_start window_end checked_at : ℕ) → ShortWindowContractRule
      → List (ReplayResult F)
  unfolding replay_from
  replay_candles candles window_start window_end checked_at rule =
      let interval_ms = short_window_interval_ms rule.interval in
      let start_ms = (window_start + (interval_ms - 1)) / interval_ms * interval_ms in
      replay_from candles checked_at rule window_end (window_end / interval_ms + 1) start_ms

pub data MetricsWindow : Type 0 where
  d1 d3 w1 m1 : MetricsWindow

unfoldable pub window_duration_ms : MetricsWindow → ℕ
window_duration_ms MetricsWindow.d1 = 24 * 60 * 60 * 1000
window_duration_ms MetricsWindow.d3 = 3 * 24 * 60 * 60 * 1000
window_duration_ms MetricsWindow.w1 = 7 * 24 * 60 * 60 * 1000
window_duration_ms MetricsWindow.m1 = 30 * 24 * 60 * 60 * 1000

-- The start and end times of the window that ends at `checked_at`.
unfoldable pub resolve_short_window_metrics_window : MetricsWindow → ℕ → ℕ × ℕ
unfolding window_duration_ms
resolve_short_window_metrics_window window checked_at =
    (checked_at - window_duration_ms window, checked_at)
