-- ===== src/Backtest.antt =====
-- The research backtest, packages/research-signals/src/backtest/runner.ts, and the strategy it is run
-- with, src/strategies/baselines.ts. The contracts are those of packages/shared-types/src/index.ts.
pub mod Guards
mod Tests
use mathlib.Core.List.{foldl, filter_map}
use mathlib.Core.Option
use Prim.Native.String
use event_probability_termin.Base.{
  ℕ, suc, ◌+◌, min, max, Option, none, some, Bool, true, false, not, ◌&&◌, ◌||◌, List, [], ◌∷◌,
  ◌++◌, map, String, ltb, leb, if◌then◌else◌, is_none, get_or, filter, length, is_empty, last?,
  at_end, any, only_if,
}
use event_probability_termin.Base.Number.{Number}

pub record OhlcvCandle (F : Type 0) : Type 0 where
  pub timestamp : ℕ
  pub open_price : F
  pub high : F
  pub low : F
  pub close : F
  pub volume : F

pub data BaselineResearchDirection : Type 0 where
  up down no_signal : BaselineResearchDirection

pub record BaselineSignalResult (F : Type 0) : Type 0 where
  pub direction : BaselineResearchDirection
  pub confidence : F
  pub reasons : List String
  pub veto_reasons : List String
  pub is_research_only : Bool

pub record ResearchStrategyInput (F : Type 0) : Type 0 where
  pub candles : List (OhlcvCandle F)
  pub entry_time : ℕ
  pub outcome_time : ℕ

-- The texts of a candidate but its id are not read.
pub record ResearchStrategyCandidate (F : Type 0) : Type 0 where
  pub id : String
  pub signal_fn : ResearchStrategyInput F → BaselineSignalResult F

-- A time is null where its text is no date.
pub record BacktestSample (F : Type 0) : Type 0 where
  pub entry_time : Option ℕ
  pub outcome_time : Option ℕ
  pub entry_price : F
  pub outcome_price : F
  pub candles : List (OhlcvCandle F)

pub record RunBacktestInput (F : Type 0) : Type 0 where
  pub strategy : ResearchStrategyCandidate F
  pub samples : List (BacktestSample F)
  pub fees_assumption : Option String
  pub slippage_assumption : Option String
  pub spread_assumption : Option String
  pub min_sample_count : Option ℕ

pub record BacktestResult (F : Type 0) : Type 0 where
  pub strategy_id : String
  pub sample_count : ℕ
  pub win_rate : Option F
  pub avg_return : Option F
  pub max_drawdown : Option F
  pub fees_assumption : String
  pub slippage_assumption : String
  pub spread_assumption : String
  pub data_start : Option ℕ
  pub data_end : Option ℕ
  pub warnings : List String
  pub rejected_reasons : List String

-- How JavaScript prints a whole number and a number with six decimals, and an instant as the texts of
-- the samples do.
pub record Printer (F : Type 0) : Type 0 where
  pub decimal : ℕ → String
  pub six_decimals : F → String
  pub iso : ℕ → String

pub record Trade (F : Type 0) : Type 0 where
  pub won : Bool
  pub signed_return : F

pub record ReturnCurve (F : Type 0) : Type 0 where
  pub equity : F
  pub peak : F
  pub drawdown : F

infixl 60 ◌<>◌
abbrev ◌<>◌ : String → String → String
s <> t = String.◌++◌ s t

-- `Math.min(...values)` and `Math.max(...values)`, null of no values.
abbrev min_time : List ℕ → Option ℕ
min_time [] = none
min_time (t ∷ ts) = some (foldl (λ a b. min a b) t ts)

abbrev max_time : List ℕ → Option ℕ
max_time [] = none
max_time (t ∷ ts) = some (foldl (λ a b. max a b) t ts)

module _ {F : Type 0} where
  abbrev pub is_seen : (entry : ℕ) → OhlcvCandle F → Bool
  is_seen entry candle = leb candle.timestamp entry

module _ {F : Type 0} ⦃N : Number F⦄ where
  -- `baselineUnderlyingMomentumSignal` once the two candles are there.
  abbrev momentum_signal : Printer F → (latest prior : OhlcvCandle F) → BaselineSignalResult F
  momentum_signal printer latest prior =
      let zero = N.dec 0 0 in
      let move =
        if N.eq prior.close zero
        then zero
        else N.div (N.sub latest.close prior.close) prior.close in
      let direction =
        if N.lt zero move then BaselineResearchDirection.up else BaselineResearchDirection.down in
      if N.lt (N.abs move) (N.dec 5 4)
      then record {
        direction = BaselineResearchDirection.no_signal;
        confidence = N.dec 1 1;
        reasons =
            ("Pre-entry momentum " <> printer.six_decimals move <> " below research threshold.")
            ∷ [];
        veto_reasons = "Momentum too small for baseline research signal." ∷ [];
        is_research_only = true;
      }
      else record {
        direction = direction;
        confidence =
            N.smallest (N.dec 6 1) (N.largest (N.dec 15 2) (N.mul (N.abs move) (N.dec 100 0)));
        reasons =
            ("Pre-entry close momentum over three candles was " <> printer.six_decimals move <> ".")
            ∷ [];
        veto_reasons = [];
        is_research_only = true;
      }

  unfoldable pub baseline_underlying_momentum_signal :
      Printer F → ResearchStrategyInput F → BaselineSignalResult F
  baseline_underlying_momentum_signal printer input =
      let usable = filter (is_seen input.entry_time) input.candles in
      let insufficient : BaselineSignalResult F = record {
        direction = BaselineResearchDirection.no_signal;
        confidence = N.dec 0 0;
        reasons = [];
        veto_reasons = "Insufficient pre-entry candles for baseline momentum." ∷ [];
        is_research_only = true;
      } in
      elim (last? usable) [
        | none ↦ insufficient
        | some latest ↦ elim (at_end 4 usable) [
          | none ↦ insufficient
          | some prior ↦ momentum_signal printer latest prior
        ]
      ]

  -- The reason against a sample, null where there is none.
  unfoldable pub reject_sample_reason : BacktestSample F → Option String
  reject_sample_reason sample = elim sample.entry_time [
    | none ↦ some "entryTime and outcomeTime must be valid ISO timestamps."
    | some entry ↦ elim sample.outcome_time [
      | none ↦ some "entryTime and outcomeTime must be valid ISO timestamps."
      | some outcome ↦
          if leb outcome entry
          then some "entryTime must be earlier than outcomeTime."
          else if ltb (length sample.candles) 4
          then some "data insufficient before entry signal."
          else if any (λ c. ltb entry c.timestamp) sample.candles
          then some "future candle found in signal input window."
          else if not (N.is_finite sample.entry_price) || not (N.is_finite sample.outcome_price)
          then some "entryPrice and outcomePrice must be finite."
          else none
    ]
  ]

  -- The lines on the samples that are rejected, from the sample of this index on.
  abbrev pub rejected_lines : Printer F → (index : ℕ) → List (BacktestSample F) → List String
  rejected_lines printer index [] = []
  rejected_lines printer index (sample ∷ samples) =
      let rest = rejected_lines printer (suc index) samples in
      elim (reject_sample_reason sample) [
        | none ↦ rest
        | some reason ↦ ("sample " <> printer.decimal index <> ": " <> reason) ∷ rest
      ]

  abbrev pub accepted_of : List (BacktestSample F) → List (BacktestSample F)
  accepted_of samples = filter (λ s. is_none (reject_sample_reason s)) samples

  -- The times of a sample, which are dates in those that were accepted.
  abbrev pub entry_of : BacktestSample F → ℕ
  entry_of sample = get_or sample.entry_time 0

  abbrev pub outcome_of : BacktestSample F → ℕ
  outcome_of sample = get_or sample.outcome_time 0

  -- What the strategy is given of a sample.
  abbrev pub strategy_input : BacktestSample F → ResearchStrategyInput F
  strategy_input sample = record {
    candles = filter (is_seen (entry_of sample)) sample.candles;
    entry_time = entry_of sample;
    outcome_time = outcome_of sample;
  }

  -- The trade on a sample, null without a signal for research that has a direction.
  unfoldable pub trade_of : ResearchStrategyCandidate F → BacktestSample F → Option (Trade F)
  trade_of strategy sample =
      let signal = strategy.signal_fn (strategy_input sample) in
      let zero = N.dec 0 0 in
      let raw_return =
        if N.eq sample.entry_price zero
        then zero
        else N.div (N.sub sample.outcome_price sample.entry_price) sample.entry_price in
      let trade : F → Option (Trade F) = λ signed_return.
        some (record { won = N.lt zero signed_return; signed_return = signed_return }) in
      let directed : Option (Trade F) = elim signal.direction [
        | BaselineResearchDirection.no_signal ↦ none
        | BaselineResearchDirection.up ↦ trade raw_return
        | BaselineResearchDirection.down ↦ trade (N.neg raw_return)
      ] in
      if signal.is_research_only then directed else none

  abbrev pub impure_lines :
      Printer F → ResearchStrategyCandidate F → List (BacktestSample F) → List String
  impure_lines printer strategy samples =
      map
        (λ s.
          "sample at "
          <> printer.iso (entry_of s)
          <> ": strategy returned non research-only output.")
        (filter (λ s. not (strategy.signal_fn (strategy_input s)).is_research_only) samples)

  abbrev round : F → F
  round = N.to_fixed 6

  -- `values.reduce((sum, value) => sum + value, 0) / values.length`
  unfoldable pub mean : List F → F
  mean values = N.div (foldl N.add (N.dec 0 0) values) (N.dec (length values) 0)

  unfoldable pub return_step : ReturnCurve F → F → ReturnCurve F
  return_step curve value =
      let equity = N.mul curve.equity (N.add (N.dec 1 0) value) in
      let peak = N.largest curve.peak equity in
      let fall = if N.eq peak (N.dec 0 0) then N.dec 0 0 else N.div (N.sub peak equity) peak in
      record { equity = equity; peak = peak; drawdown = N.largest curve.drawdown fall }

  unfoldable pub max_drawdown_from_returns : List F → F
  unfolding return_step
  max_drawdown_from_returns returns =
      let start : ReturnCurve F = record {
        equity = N.dec 1 0;
        peak = N.dec 1 0;
        drawdown = N.dec 0 0;
      } in
      (foldl return_step start returns).drawdown

  -- `sampleCount ? … : null`
  abbrev if_any : {A : Type 0} → List A → F → Option F
  if_any items value = if is_empty items then none else some value

  abbrev exceeds_70 : Option F → Bool
  exceeds_70 none = false
  exceeds_70 (some rate) = N.lt (N.dec 7 1) rate

  unfoldable pub run_research_backtest : Printer F → RunBacktestInput F → BacktestResult F
  unfolding reject_sample_reason trade_of mean max_drawdown_from_returns
  run_research_backtest printer input =
      let min_sample_count = get_or input.min_sample_count 30 in
      let fees =
        get_or input.fees_assumption
          "Not modeled; caller must record venue fees before interpreting returns." in
      let slippage =
        get_or input.slippage_assumption
          "Not modeled; caller must record slippage assumptions before interpreting returns." in
      let spread =
        get_or input.spread_assumption
          "Not modeled; caller must record spread and liquidity assumptions before interpreting returns." in
      let rejected = rejected_lines printer 0 input.samples in
      let accepted = accepted_of input.samples in
      let few =
        "sampleCount "
        <> printer.decimal (length accepted)
        <> " is below minimum "
        <> printer.decimal min_sample_count
        <> "; result cannot be marked viable." in
      let trades = filter_map (trade_of input.strategy) accepted in
      let returns = map (λ t. t.signed_return) trades in
      let count = length trades in
      let won = length (filter (λ t. t.won) trades) in
      let win_rate = if_any trades (round (N.div (N.dec won 0) (N.dec count 0))) in
      if is_empty accepted
      then record {
        strategy_id = input.strategy.id;
        sample_count = 0;
        win_rate = none;
        avg_return = none;
        max_drawdown = none;
        fees_assumption = fees;
        slippage_assumption = slippage;
        spread_assumption = spread;
        data_start = none;
        data_end = none;
        warnings = "No valid backtest samples after anti-cheat checks." ∷ [];
        rejected_reasons = rejected;
      }
      else record {
        strategy_id = input.strategy.id;
        sample_count = count;
        win_rate = win_rate;
        avg_return = if_any trades (round (mean returns));
        max_drawdown = if_any trades (round (max_drawdown_from_returns returns));
        fees_assumption = fees;
        slippage_assumption = slippage;
        spread_assumption = spread;
        data_start = min_time (map entry_of accepted);
        data_end = max_time (map outcome_of accepted);
        warnings =
            only_if (ltb (length accepted) min_sample_count) few
            ++ (only_if (is_empty trades)
                  "No directional research signals were emitted by the strategy."
                ++ only_if (exceeds_70 win_rate && ltb count min_sample_count)
                    "High winRate with insufficient sampleCount is not evidence of viability.");
        rejected_reasons = rejected ++ impure_lines printer input.strategy accepted;
      }
