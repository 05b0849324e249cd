-- ===== src/EventReplay/Tests.antt =====
-- The theorems on the event replay at concrete signals: a market that is settled by the price of an
-- expiry, with prices in hundred-millionths.
use mathlib.Core.Option
use event_probability_termin.Base.{
  ℕ, ◌+◌, ◌*◌, ◌≡◌, refl, ◌↔◌, inl, inr, true, none, some, List, [], ◌∷◌, map, Option,
}
use event_probability_termin.Base.Int.{pos}
use event_probability_termin.Base.Fixed.{Fixed, fixed_number}
use event_probability_termin.Market.{
  Candle, DataSourceType, SignalSymbol, RealtimePriceSymbol, OhlcvInterval,
}
use event_probability_termin.EventReplay.{
  FairValueComparator, FairValueSignalSide, FairValueResolutionRuleConfidence,
  FairValueMarketEligibility, ReplayWindowId, ReplayWindow, ReplayOutcomeStatus, ReplaySignal,
  LabelReplayOutcomeInput,
}
use event_probability_termin.EventReplay.Labels.{
  label_replay_outcome, label_expired, price_at_or_before, build_replay_trade_like_result,
}
use event_probability_termin.EventReplay.Labels.Laws.{label_iff}
use event_probability_termin.EventReplay.Metrics.{
  ReplaySymbolFilter, ReplayMetrics, compute_replay_metrics,
}
use event_probability_termin.EventReplay.Metrics.Counts.{judged, replay_metrics_lem}

abbrev price : ℕ → Fixed
price n = pos (n * 100_000_000)

abbrev closing : ℕ → ℕ → Candle Fixed
closing time close = record {
  source_type = DataSourceType.live;
  symbol = SignalSymbol.btc;
  interval = OhlcvInterval.m1;
  granularity = 60;
  open_time = time;
  start_time = time;
  timestamp = time;
  open_price = price close;
  high = price close;
  low = price close;
  close = price close;
  volume = price 1;
  is_closed = true;
}

abbrev signal : FairValueSignalSide → ReplaySignal Fixed
signal side = record {
  id = "replay:m1";
  symbol = SignalSymbol.btc;
  underlying_symbol = RealtimePriceSymbol.btcusdt;
  market_id = "m1";
  question = "Bitcoin above $100k?";
  signal_time = 60_000;
  expiry_time = some 300_000;
  price_at_signal = price 99_000;
  side = side;
  model_probability_yes = none;
  market_probability_yes = some (pos 40_000_000);
  edge = none;
  confidence = pos 50_000_000;
  reason = "";
  reject_reasons = [];
  assumptions = [];
}

abbrev eligibility : FairValueMarketEligibility Fixed
eligibility = record {
  eligible = true;
  reject_reasons = [];
  extracted = record {
    threshold_price = some (price 100_000);
    comparator = some FairValueComparator.above;
    expiry_time = some 300_000;
    underlying_symbol = some RealtimePriceSymbol.btcusdt;
    resolution_rule_confidence = FairValueResolutionRuleConfidence.high;
  };
}

abbrev input : FairValueSignalSide → LabelReplayOutcomeInput Fixed
input side = record {
  signal = signal side;
  eligibility = some eligibility;
  historical_candles =
      closing 360_000 90_000 ∷ closing 300_000 101_000 ∷ closing 240_000 99_000 ∷ [];
  closed_market_data = none;
  now = some 400_000;
}

-- The close at the expiry, 101,000 dollars, is above the threshold: LONG_YES has won.
label_iff_example :
    (label_replay_outcome (input FairValueSignalSide.long_yes)).status ≡ ReplayOutcomeStatus.win
unfolding price_at_or_before Option.bind
label_iff_example = (label_iff (input FairValueSignalSide.long_yes)).0.1 (
    inl (
      refl,
      (
        300_000,
        (refl, refl),
        inr (
          refl,
          (FairValueComparator.above, price 100_000, price 101_000, refl, refl, refl, refl, refl),
        ),
      ),
    ))

abbrev window : ReplayWindow ℕ
window = record {
  id = ReplayWindowId.d1;
  start_time = 0;
  end_time = 86_400_000;
  label = "Past 1 day";
}

abbrev inputs : List (LabelReplayOutcomeInput Fixed × Option Fixed)
inputs =
    (input FairValueSignalSide.long_yes, none)
    ∷ (input FairValueSignalSide.long_no, none)
    ∷ (input FairValueSignalSide.rejected, none)
    ∷ []

abbrev figures : ReplayMetrics Fixed
figures = compute_replay_metrics (record {
  symbol = ReplaySymbolFilter.all_symbols;
  window = window;
  results = map judged inputs;
  checked_at = 400_000;
  warnings = [];
})

replay_metrics_lem_example :
    (figures.sample_count ≡ figures.win_count + figures.loss_count)
    × (figures.sample_count ≡ figures.long_yes_count + figures.long_no_count)
    × (figures.actionable_count
        ≡ figures.sample_count + figures.pending_count + figures.unresolved_count)
    × (3 ≡ figures.actionable_count + figures.rejected_count + figures.no_signal_count)
    × ((figures.win_rate ≡ none) ↔ (figures.sample_count ≡ 0))
replay_metrics_lem_example =
    replay_metrics_lem inputs ReplaySymbolFilter.all_symbols window 400_000 []

-- One signal has won, one has lost and one was rejected.
counts_of_inputs :
    (figures.win_count ≡ 1)
    × (figures.loss_count ≡ 1)
    × (figures.rejected_count ≡ 1)
    × (figures.sample_count ≡ 2)
unfolding compute_replay_metrics label_replay_outcome label_expired price_at_or_before
    build_replay_trade_like_result Option.bind
counts_of_inputs = (refl, refl, refl, refl)
