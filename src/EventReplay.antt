-- ===== src/EventReplay.antt =====
-- The replay of event-market signals, packages/research-signals/src/replay/: the window of a replay,
-- the label of each signal once its market has expired, and the figures over the results. The
-- contracts are those of packages/shared-types/src/index.ts and of replay/types.ts.
pub mod Windows
pub mod Labels
pub mod Metrics
mod Tests
use event_probability_termin.Base.{ℕ, Option, Bool, List, String}
use event_probability_termin.Market.{SignalSymbol, RealtimePriceSymbol, Candle}

pub data FairValueComparator : Type 0 where
  above below hit : FairValueComparator

pub data FairValueSignalSide : Type 0 where
  long_yes long_no no_signal rejected : FairValueSignalSide

pub data FairValueResolutionRuleConfidence : Type 0 where
  high medium low unknown : FairValueResolutionRuleConfidence

-- The `extracted` part of an eligibility. A time is null where its text is absent or is no date.
pub record ExtractedTerms (F : Type 0) : Type 0 where
  pub threshold_price : Option F
  pub comparator : Option FairValueComparator
  pub expiry_time : Option ℕ
  pub underlying_symbol : Option RealtimePriceSymbol
  pub resolution_rule_confidence : FairValueResolutionRuleConfidence

pub record FairValueMarketEligibility (F : Type 0) : Type 0 where
  pub eligible : Bool
  pub reject_reasons : List String
  pub extracted : ExtractedTerms F

pub data ReplayWindowId : Type 0 where
  d1 d3 w1 m1 custom : ReplayWindowId

-- `Time` is `Option ℕ` for the texts that come in, null where one is no date, and `ℕ` for the times
-- that were read.
pub record ReplayWindow (Time : Type 0) : Type 0 where
  pub id : ReplayWindowId
  pub start_time : Time
  pub end_time : Time
  pub label : String

pub data ReplayOutcomeStatus : Type 0 where
  win loss pending unresolved rejected no_signal : ReplayOutcomeStatus

pub data ReplayResolvedOutcome : Type 0 where
  yes_outcome no_outcome : ReplayResolvedOutcome

pub data ReplayOutcomeSource : Type 0 where
  polymarket_closed_market binance_threshold_reconstruction mock_fixture unknown :
      ReplayOutcomeSource

-- `expiry_time` is null where the text is no date.
pub record ReplaySignal (F : Type 0) : Type 0 where
  pub id : String
  pub symbol : SignalSymbol
  pub underlying_symbol : RealtimePriceSymbol
  pub market_id : String
  pub question : String
  pub signal_time : ℕ
  pub expiry_time : Option ℕ
  pub price_at_signal : F
  pub side : FairValueSignalSide
  pub model_probability_yes : Option F
  pub market_probability_yes : Option F
  pub edge : Option F
  pub confidence : F
  pub reason : String
  pub reject_reasons : List String
  pub assumptions : List String

pub record ReplayOutcome (F : Type 0) : Type 0 where
  pub signal_id : String
  pub market_id : String
  pub status : ReplayOutcomeStatus
  pub resolved_outcome : Option ReplayResolvedOutcome
  pub outcome_source : ReplayOutcomeSource
  pub resolved_at : Option ℕ
  pub price_at_expiry : Option F
  pub notes : List String

pub record ReplayTradeLikeResult (F : Type 0) : Type 0 where
  pub signal : ReplaySignal F
  pub outcome : ReplayOutcome F
  pub theoretical_entry_price : Option F
  pub theoretical_exit_value : Option F
  pub theoretical_pnl : Option F
  pub fees_assumption : String
  pub slippage_assumption : String
  pub spread_assumption : String
  pub counted_in_win_rate : Bool

-- What is known of a market that has closed; the market itself is not read.
pub record ReplayClosedMarketData (F : Type 0) : Type 0 where
  pub eligibility : Option (FairValueMarketEligibility F)
  pub resolved_outcome : Option ReplayResolvedOutcome
  pub outcome_source : Option ReplayOutcomeSource
  pub resolved_at : Option ℕ
  pub resolution_notes : Option (List String)

-- `now` is null where its text is no date.
pub record LabelReplayOutcomeInput (F : Type 0) : Type 0 where
  pub signal : ReplaySignal F
  pub eligibility : Option (FairValueMarketEligibility F)
  pub historical_candles : List (Candle F)
  pub closed_market_data : Option (ReplayClosedMarketData F)
  pub now : Option ℕ

pub record BuildReplayResultInput (F : Type 0) : Type 0 where
  pub signal : ReplaySignal F
  pub outcome : ReplayOutcome F
  pub market_no_price : Option F
