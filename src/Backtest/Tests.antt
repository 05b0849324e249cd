-- ===== src/Backtest/Tests.antt =====
-- The theorems on the backtest at concrete samples.
use event_probability_termin.Base.{
  String, any, ltb, false, refl, arith, if◌then◌else◌, ◌++◌, ℕ, ◌+◌, ◌≤◌, ◌≡◌, ◌↔◌, none, some,
  List, [], ◌∷◌, length, All,
}
use event_probability_termin.Base.Int.{pos}
use event_probability_termin.Base.Fixed.{Fixed, fixed_number}
use event_probability_termin.Backtest.{
  OhlcvCandle, BacktestSample, RunBacktestInput, Printer, baseline_underlying_momentum_signal,
  ResearchStrategyInput, BaselineSignalResult, accepted_of, rejected_lines, run_research_backtest,
}
use event_probability_termin.Backtest.Guards.{IsAccepted, backtest_lem, backtest-blind}

abbrev candle : ℕ → ℕ → OhlcvCandle Fixed
candle time close = record {
  timestamp = time;
  open_price = pos close;
  high = pos close;
  low = pos close;
  close = pos close;
  volume = pos 1;
}

abbrev candles : List (OhlcvCandle Fixed)
candles = candle 0 1000 ∷ candle 60 1010 ∷ candle 120 1020 ∷ candle 180 1030 ∷ []

-- A sample whose entry comes after its candles, and one whose entry does not.
abbrev sample : ℕ → BacktestSample Fixed
sample entry = record {
  entry_time = some entry;
  outcome_time = some 600;
  entry_price = pos 1030;
  outcome_price = pos 1040;
  candles = candles;
}

abbrev printer : Printer Fixed
printer = record { decimal = λ n. "n"; six_decimals = λ x. "x"; iso = λ t. "t" }

abbrev input : RunBacktestInput Fixed
input = record {
  strategy = record {
    id = "baseline-underlying-momentum";
    signal_fn = baseline_underlying_momentum_signal printer;
  };
  samples = sample 180 ∷ sample 120 ∷ [];
  fees_assumption = none;
  slippage_assumption = none;
  spread_assumption = none;
  min_sample_count = none;
}

nothing_later :
    (s : BacktestSample Fixed) (entry : ℕ)
    → IsAccepted s
    → s.entry_time ≡ some entry
    → any (λ c. ltb entry c.timestamp) s.candles ≡ false
nothing_later s entry accepted at = ground (arith, accepted, at)

backtest_lem_example :
    let result = run_research_backtest printer input in
    let accepted = accepted_of input.samples in
    let lines = rejected_lines printer 0 input.samples in
    All IsAccepted accepted
    × ((others : List String) × (result.rejected_reasons ≡ lines ++ others))
    × (length accepted + length lines ≡ 2)
    × (result.sample_count ≤ length accepted)
    × ((result.win_rate ≡ none) ↔ (result.sample_count ≡ 0))
backtest_lem_example = backtest_lem printer input

-- A strategy that says what the baseline says where its candles end by the entry, and else nothing.
abbrev cautious : ResearchStrategyInput Fixed → BaselineSignalResult Fixed
cautious given =
    if any (λ c. ltb given.entry_time c.timestamp) given.candles
    then baseline_underlying_momentum_signal printer (record given { candles = [] })
    else baseline_underlying_momentum_signal printer given

backtest-blind_example :
    run_research_backtest printer input
    ≡ run_research_backtest printer
        (record input { strategy = record input.strategy { signal_fn = cautious } })
backtest-blind_example =
    backtest-blind printer input cautious (λ s entry outcome accepted is_entry is_outcome.
      rw (nothing_later s entry accepted is_entry) refl)
