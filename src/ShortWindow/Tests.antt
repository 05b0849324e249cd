-- ===== src/ShortWindow/Tests.antt =====
-- The theorems on short windows at one concrete market: minute candles that rise by 40 dollars each,
-- with prices in hundred-millionths.
use event_probability_termin.Base.{
  ℕ, ◌+◌, ◌-◌, ◌*◌, ◌%◌, ◌<◌, ◌≤◌, ◌≡◌, refl, ◌≢◌, ◌↔◌, is_some, ◌⊎◌, inl, true, false, none, some,
  List, [], ◌∷◌, map, filter, leb, length, arith,
}
use event_probability_termin.Base.Int.{pos}
use event_probability_termin.Base.Fixed.{Fixed, fixed_number, Fixed-IsOrdered}
use event_probability_termin.Market.{
  Candle, DataSourceType, SignalSymbol, RealtimePriceSymbol, OhlcvInterval,
}
use event_probability_termin.ShortWindow.{
  ShortWindowVenue, ShortWindowInterval, ShortWindowRuleType, ShortWindowReferenceSource,
  ShortWindowTieRule, ShortWindowRuleConfidence, ShortWindowContractRule, ShortWindowEvent,
  ShortWindowEventStatus, ShortWindowSignalSide, ResolvedSide,
}
use event_probability_termin.ShortWindow.Signal.Unverified.{unverified_rejected}
use event_probability_termin.ShortWindow.Rules.{
  RuleTemplateInput, build_short_window_rule_template, short_window_interval_ms,
}
use event_probability_termin.ShortWindow.Settlement.{
  settle, start_reference, end_reference, average_reference_price, end_price,
  evaluate_short_window_rule_outcome,
}
use event_probability_termin.ShortWindow.Settlement.Laws.{settles_iff}
use event_probability_termin.ShortWindow.Window.{
  BuildCurrentInput, resolve_start_reference_price, opening_price, resolve_current_price, price_of,
  event_status, build_current_short_window_event,
}
use event_probability_termin.ShortWindow.Window.Phases.{current_window, current_phase}
use event_probability_termin.ShortWindow.Window.Causal.{seen, current_event-seen}
use event_probability_termin.ShortWindow.Signal.{
  ShortWindowSignal, build_signal, reject_reasons_of, confidence_of, confidence_cap_for_rule,
  generate_short_window_signal,
}
use event_probability_termin.ShortWindow.Signal.Features.{
  MarketState, realized_volatility_bps, build_features, directional_score,
}
use event_probability_termin.ShortWindow.Signal.Closed.{
  IsAccepted, IsReady, long_up_iff, rejected_iff,
}
use event_probability_termin.ShortWindow.Signal.Confidence.{IsUnit, confidence-IsUnit}
use event_probability_termin.ShortWindow.Replay.{
  OutcomeStatus, ReplayResult, MetricsWindow, candle_close_ms, replay_window, resolve_replay_result,
  replay_candles,
}
use event_probability_termin.ShortWindow.Replay.Outcomes.{counted_iff, win_iff}
use event_probability_termin.ShortWindow.Replay.Windows.{
  progression, replay_candles-starts, signal-blind,
}
use event_probability_termin.ShortWindow.Metrics.{
  status_of, max_drawdown, compute_short_window_metrics,
}
use event_probability_termin.ShortWindow.Metrics.Drawdown.{worst_excess, max_drawdown_lem}
use event_probability_termin.ShortWindow.Metrics.Counts.{replay_counts}

abbrev price : ℕ → Fixed
price n = pos (n * 100_000_000)

abbrev minute : ℕ → ℕ → ℕ → Candle Fixed
minute k from to = record {
  source_type = DataSourceType.live;
  symbol = SignalSymbol.btc;
  interval = OhlcvInterval.m1;
  granularity = 60;
  open_time = k * 60_000;
  start_time = k * 60_000;
  timestamp = k * 60_000;
  open_price = price from;
  high = price to;
  low = price from;
  close = price to;
  volume = price 1;
  is_closed = true;
}

abbrev rising : List (Candle Fixed)
rising =
    minute 0 50_000 50_040
    ∷ minute 1 50_040 50_080
    ∷ minute 2 50_080 50_120
    ∷ minute 3 50_120 50_160
    ∷ minute 4 50_160 50_200
    ∷ []

abbrev end_price_rule : ShortWindowContractRule
end_price_rule = record {
  id = "binance-wallet-btc-5m";
  venue = ShortWindowVenue.binance_wallet_prediction;
  interval = ShortWindowInterval.m5;
  symbol = SignalSymbol.btc;
  underlying_symbol = RealtimePriceSymbol.btcusdt;
  rule_type = ShortWindowRuleType.end_price_gte_start_price;
  reference_source = ShortWindowReferenceSource.binance_spot_proxy;
  start_average_seconds = none;
  end_average_seconds = none;
  tie_rule = ShortWindowTieRule.up;
  is_verified_rule = false;
  rule_confidence = ShortWindowRuleConfidence.medium;
  notes = [];
}

abbrev input : BuildCurrentInput Fixed
input = record {
  symbol = SignalSymbol.btc;
  interval = ShortWindowInterval.m5;
  venue = ShortWindowVenue.binance_wallet_prediction;
  now = 240_000;
  price_ticks = [];
  candles = rising;
  rule = end_price_rule;
}

abbrev event : ShortWindowEvent Fixed
event = build_current_short_window_event input

abbrev state : MarketState Fixed
state = record {
  candles = rising;
  price_tick = none;
  bid = none;
  ask = none;
  latency_ms = none;
  now = 240_000;
  stale_after_ms = none;
  min_confidence = none;
}

abbrev signal : ShortWindowSignal Fixed
signal = generate_short_window_signal event state

abbrev outcome_side : ResolvedSide
outcome_side =
    (evaluate_short_window_rule_outcome end_price_rule 0 300_000 (some (price 50_000))
      rising).resolved_side

settles_iff_example : outcome_side ≡ ResolvedSide.up
unfolding start_reference end_reference average_reference_price end_price
settles_iff_example =
    (settles_iff end_price_rule 0 300_000 (some (price 50_000)) rising).0.1
      ((λ e. ground arith), inl refl)

current_window_example :
    (event.start_time % 300_000 ≡ 0)
    × (event.end_time ≡ event.start_time + 300_000)
    × (event.start_time ≤ 240_000)
    × (240_000 < event.end_time)
    × (event.end_time ≤ 240_000 + event.seconds_remaining * 1000)
    × (240_000 + event.seconds_remaining * 1000 < event.end_time + 1000)
    × (event.status ≢ ShortWindowEventStatus.closed)
unfolding short_window_interval_ms
current_window_example = current_window input

current_phase_example : (event.status ≡ ShortWindowEventStatus.decision_zone) ↔ (
    (is_some event.start_reference_price ≡ true)
    × (30_000 ≤ 240_000 - event.start_time)
    × (20_000 < event.end_time - 240_000)
    × (event.end_time - 240_000 ≤ 120_000))
current_phase_example = (current_phase input).2

current_event-seen_example :
    (build_current_short_window_event (seen input)).start_reference_price
    ≡ event.start_reference_price
current_event-seen_example = (current_event-seen input).0

long_up_iff_example :
    IsReady event state
    × (fixed_number.lt (fixed_number.dec 0 0) (directional_score event (build_features event state))
        ≡ true)
unfolding generate_short_window_signal build_signal directional_score build_features
    reject_reasons_of confidence_of confidence_cap_for_rule build_current_short_window_event
    resolve_start_reference_price opening_price resolve_current_price price_of event_status
    short_window_interval_ms realized_volatility_bps
long_up_iff_example = (long_up_iff event state).0 refl

rejected_iff_example :
    (signal.side ≡ ShortWindowSignalSide.rejected)
    ↔ (¬ IsAccepted event (build_features event state))
rejected_iff_example = rejected_iff event state

confidence-IsUnit_example : IsUnit Fixed-IsOrdered signal.confidence
unfolding generate_short_window_signal build_signal directional_score build_features
    reject_reasons_of confidence_of confidence_cap_for_rule build_current_short_window_event
    resolve_start_reference_price opening_price resolve_current_price price_of event_status
    short_window_interval_ms realized_volatility_bps
confidence-IsUnit_example = confidence-IsUnit Fixed-IsOrdered event state refl

abbrev settled : ResolvedSide
settled =
    (evaluate_short_window_rule_outcome event.rule event.start_time event.end_time
      event.start_reference_price rising).resolved_side

abbrev result : ReplayResult Fixed
result = resolve_replay_result event signal rising 300_000

counted_iff_example : (result.outcome.counted_in_win_rate ≡ true) ↔ (
    ((signal.side ≡ ShortWindowSignalSide.long_up)
      ⊎ (signal.side ≡ ShortWindowSignalSide.long_down))
    × (event.end_time ≤ 300_000)
    × ((settled ≡ ResolvedSide.up) ⊎ (settled ≡ ResolvedSide.down)))
counted_iff_example = counted_iff event signal rising 300_000

win_iff_example : result.outcome.status ≡ OutcomeStatus.win
unfolding generate_short_window_signal build_signal directional_score build_features
    reject_reasons_of confidence_of confidence_cap_for_rule build_current_short_window_event
    resolve_start_reference_price opening_price resolve_current_price price_of event_status
    short_window_interval_ms realized_volatility_bps evaluate_short_window_rule_outcome settle
    start_reference end_reference average_reference_price end_price
win_iff_example = (win_iff event signal rising 300_000).0.1 (omega arith, inl (refl, refl))

replay_candles-starts_example :
    map (λ r. r.event.start_time) (replay_candles rising 0 600_000 600_000 end_price_rule)
    ≡ progression 0 300_000 2
unfolding short_window_interval_ms
replay_candles-starts_example = replay_candles-starts rising 600_000 end_price_rule 0 600_000

signal-blind_example :
    (replay_window
      (filter (λ c. leb (candle_close_ms c) 240_000) rising)
      600_000
      end_price_rule
      0).signal
    ≡ (replay_window rising 600_000 end_price_rule 0).signal
unfolding short_window_interval_ms
signal-blind_example = signal-blind rising 600_000 end_price_rule 0

max_drawdown_lem_example : max_drawdown (result ∷ []) ≡ some (worst_excess (status_of result ∷ []))
max_drawdown_lem_example = max_drawdown_lem (result ∷ [])

replay_counts_example :
    let results = replay_candles rising 0 600_000 600_000 end_price_rule in
    let m =
      compute_short_window_metrics SignalSymbol.btc ShortWindowInterval.m5 MetricsWindow.d1 results
        [] in
    (m.total_events ≡ length results)
    × (m.total_events ≡ m.actionable_count + m.wait_count + m.rejected_count)
    × (m.win_count + m.loss_count + m.pending_count ≤ m.actionable_count)
    × ((m.win_rate ≡ none) ↔ (m.win_count + m.loss_count ≡ 0))
replay_counts_example =
    replay_counts rising 0 600_000 600_000 end_price_rule SignalSymbol.btc ShortWindowInterval.m5
      MetricsWindow.d1 []

-- The venue of the window, and its template.
abbrev wallet : RuleTemplateInput
wallet = record {
  venue = ShortWindowVenue.binance_wallet_prediction;
  symbol = SignalSymbol.btc;
  interval = ShortWindowInterval.m5;
}

abbrev wallet_event : ShortWindowEvent Fixed
wallet_event = record event { rule = build_short_window_rule_template wallet }

unverified_rejected_example :
    (generate_short_window_signal wallet_event state).side ≡ ShortWindowSignalSide.rejected
unverified_rejected_example = unverified_rejected wallet wallet_event state refl (inl refl)
