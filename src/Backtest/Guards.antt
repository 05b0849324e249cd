-- ===== src/Backtest/Guards.antt =====
-- The guards of the backtest against looking ahead.
use mathlib.Core.List.{filter_map, append-nil}
use event_probability_termin.Base.{
  String, sym, ap, ◌++◌, ℕ, suc, ◌+◌, ◌≤◌, ◌<◌, ◌≡◌, refl, ◌↔◌, true, false, none, some, List, [],
  ◌∷◌, arith, ltb, is_none, filter, length, any, is_empty, All, All-of_filter, Bool-cases,
  Option-cases, inl, inr,
}
use event_probability_termin.Base.Number.{Number}
use event_probability_termin.Backtest.{
  OhlcvCandle, BacktestSample, RunBacktestInput, ResearchStrategyCandidate, Printer, is_seen,
  reject_sample_reason, rejected_lines, accepted_of, strategy_input, trade_of,
  run_research_backtest, ResearchStrategyInput, BaselineSignalResult, impure_lines,
}

module _ {F : Type 0} ⦃N : Number F⦄ where
  -- What a sample must be to be used.
  abbrev pub IsAccepted : BacktestSample F → Type 0
  IsAccepted sample =
      (entry : ℕ) × (outcome : ℕ) × (sample.entry_time ≡ some entry)
      × (sample.outcome_time ≡ some outcome)
      × (entry < outcome)
      × (4 ≤ length sample.candles)
      × (any (λ c. ltb entry c.timestamp) sample.candles ≡ false)
      × (N.is_finite sample.entry_price ≡ true)
      × (N.is_finite sample.outcome_price ≡ true)

  -- A sample is used exactly when its times are dates, the entry before the outcome, when it has at
  -- least four candles, none of them later than the entry, and when both prices are finite.
  pub IsAccepted-iff :
      (sample : BacktestSample F)
      → (is_none (reject_sample_reason sample) ≡ true) ↔ IsAccepted sample
  unfolding reject_sample_reason
  IsAccepted-iff sample = ground arith

  -- With no candle after the entry there is nothing to pass over.
  all_seen :
      (entry : ℕ) (candles : List (OhlcvCandle F))
      → any (λ c. ltb entry c.timestamp) candles ≡ false
      → filter (is_seen entry) candles ≡ candles
  all_seen entry [] h = refl
  all_seen entry (c ∷ cs) h = ground (arith, all_seen entry cs)

  partition_lem :
      (printer : Printer F) (index : ℕ) (samples : List (BacktestSample F))
      → length (accepted_of samples) + length (rejected_lines printer index samples)
        ≡ length samples
  partition_lem printer index [] = refl
  partition_lem printer index (s ∷ ss) =
      let rest = partition_lem printer (suc index) ss in
      elim (Option-cases (reject_sample_reason s)) [
        | inl e ↦ ground (arith, rest, e)
        | inr (reason, e) ↦ ground (arith, rest, e)
      ]

  filter-IsAccepted : (samples : List (BacktestSample F)) → All IsAccepted (accepted_of samples)
  filter-IsAccepted samples =
      All-of_filter IsAccepted (λ s. is_none (reject_sample_reason s)) samples
        (λ s e. (IsAccepted-iff s).0 e)

  length-filter_map :
      (strategy : ResearchStrategyCandidate F) (samples : List (BacktestSample F))
      → length (filter_map (trade_of strategy) samples) ≤ length samples
  unfolding filter_map
  length-filter_map strategy [] = omega arith
  length-filter_map strategy (s ∷ ss) =
      let rest = length-filter_map strategy ss in
      elim (Option-cases (trade_of strategy s)) [
        | inl e ↦ ground (arith, rest, e)
        | inr (t, e) ↦ ground (arith, rest, e)
      ]

  -- The reasons of a backtest begin with a line for each sample that is rejected, and the other
  -- samples are used, in each of which the entry is before the outcome, there are at least four
  -- candles, none of them later than the entry, and both prices are finite; at most one trade comes of
  -- each that is used; and the win rate is null exactly without a trade.
  pub backtest_lem :
      (printer : Printer F) (input : RunBacktestInput F)
      → let result = run_research_backtest printer input in
        let accepted = accepted_of input.samples in
        let lines = rejected_lines printer 0 input.samples in
        All IsAccepted accepted
        × ((others : List String) × (result.rejected_reasons ≡ lines ++ others))
        × (length accepted + length lines ≡ length input.samples)
        × (result.sample_count ≤ length accepted)
        × ((result.win_rate ≡ none) ↔ (result.sample_count ≡ 0))
  unfolding run_research_backtest
  backtest_lem printer input =
      let accepted = accepted_of input.samples in
      let few = length-filter_map input.strategy accepted in
      (
        filter-IsAccepted input.samples,
        elim (Bool-cases (is_empty accepted)) [
          | inl e ↦ rw e ([], sym (append-nil _))
          | inr e ↦ rw e (_, refl)
        ],
        partition_lem printer 0 input.samples,
        elim (Bool-cases (is_empty accepted)) [ inl e ↦ rw e (omega arith) | inr e ↦ rw e few ],
        elim (Bool-cases (is_empty accepted)) [
          | inl e ↦ rw e (ground arith)
          | inr e ↦ rw e (ground arith)
        ],
      )

  -- Two strategies that answer alike wherever they are given all candles of an accepted sample, none
  -- of which is later than the entry, with its entry and outcome times.
  abbrev pub AgreeOnAccepted :
      (ResearchStrategyInput F → BaselineSignalResult F)
      → (ResearchStrategyInput F → BaselineSignalResult F)
      → Type 0
  AgreeOnAccepted f g =
      (sample : BacktestSample F) (entry outcome : ℕ)
      → IsAccepted sample
      → sample.entry_time ≡ some entry
      → sample.outcome_time ≡ some outcome
      → f (record { candles = sample.candles; entry_time = entry; outcome_time = outcome })
        ≡ g (record { candles = sample.candles; entry_time = entry; outcome_time = outcome })

  module _ (strategy : ResearchStrategyCandidate F)
      (other : ResearchStrategyInput F → BaselineSignalResult F)
      (agree : AgreeOnAccepted strategy.signal_fn other) where
    abbrev changed : ResearchStrategyCandidate F
    changed = record strategy { signal_fn = other }

    signal-same :
        (s : BacktestSample F)
        → IsAccepted s
        → strategy.signal_fn (strategy_input s) ≡ other (strategy_input s)
    signal-same s accepted =
        let (entry, outcome, is_entry, is_outcome, _, _, none_later, _, _) = accepted in
        let same = agree s entry outcome accepted is_entry is_outcome in
        rw (is_entry, is_outcome, all_seen entry s.candles none_later) same

    trade-same : (s : BacktestSample F) → IsAccepted s → trade_of strategy s ≡ trade_of changed s
    unfolding trade_of
    trade-same s accepted = rw (signal-same s accepted) refl

    trades-same :
        (samples : List (BacktestSample F))
        → All IsAccepted samples
        → filter_map (trade_of strategy) samples ≡ filter_map (trade_of changed) samples
    unfolding filter_map
    trades-same [] h = refl
    trades-same (s ∷ ss) (p, h) = rw (trade-same s p, trades-same ss h) refl

    impure-same :
        (printer : Printer F) (samples : List (BacktestSample F))
        → All IsAccepted samples
        → impure_lines printer strategy samples ≡ impure_lines printer changed samples
    impure-same printer [] h = refl
    impure-same printer (s ∷ ss) (p, h) =
        let rest = impure-same printer ss h in
        let here = ap (λ r. r.is_research_only) (signal-same s p) in
        elim (Bool-cases (other (strategy_input s)).is_research_only) [
          | inl e ↦ rw (here, e) rest
          | inr e ↦ rw (here, e, rest) refl
        ]

  -- A backtest does not depend on what the strategy would say of any but the accepted samples, given
  -- all of their candles, none of which is later than the entry: with another strategy that answers
  -- alike there, the whole result is the same.
  pub backtest-blind :
      (printer : Printer F) (input : RunBacktestInput F)
      (other : ResearchStrategyInput F → BaselineSignalResult F)
      → AgreeOnAccepted input.strategy.signal_fn other
      → run_research_backtest printer input
        ≡ run_research_backtest printer
            (record input { strategy = record input.strategy { signal_fn = other } })
  unfolding run_research_backtest
  backtest-blind printer input other agree =
      let accepted = filter-IsAccepted input.samples in
      rw
        (
          trades-same input.strategy other agree (accepted_of input.samples) accepted,
          impure-same input.strategy other agree printer (accepted_of input.samples) accepted,
        )
        refl
