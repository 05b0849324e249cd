-- ===== src/ShortWindow.antt =====
-- The contracts of the short-window event terminal, from packages/shared-types/src/index.ts. The
-- template texts of an event's and a signal's id are kept as their parts.
pub mod Rules
pub mod Settlement
pub mod Window
pub mod Signal
pub mod Replay
pub mod Metrics
mod Tests
use event_probability_termin.Base.{ℕ, Option, Bool, List, String}
use event_probability_termin.Market.{SignalSymbol, RealtimePriceSymbol}

pub data ShortWindowVenue : Type 0 where
  binance_wallet_prediction hibit proxy_generic mock : ShortWindowVenue

pub data ShortWindowInterval : Type 0 where
  m5 m10 m15 : ShortWindowInterval

pub data ShortWindowRuleType : Type 0 where
  end_price_gte_start_price end_avg_gte_start_avg unknown_manual_reference : ShortWindowRuleType

pub data ShortWindowReferenceSource : Type 0 where
  binance_spot_proxy binance_mark_price_proxy cf_rti_public_reference : ShortWindowReferenceSource
  chainlink_reference unknown : ShortWindowReferenceSource

pub data ShortWindowTieRule : Type 0 where
  up down unknown : ShortWindowTieRule

pub data ShortWindowRuleConfidence : Type 0 where
  high medium low unknown : ShortWindowRuleConfidence

pub record ShortWindowContractRule : Type 0 where
  pub id : String
  pub venue : ShortWindowVenue
  pub interval : ShortWindowInterval
  pub symbol : SignalSymbol
  pub underlying_symbol : RealtimePriceSymbol
  pub rule_type : ShortWindowRuleType
  pub reference_source : ShortWindowReferenceSource
  pub start_average_seconds : Option ℕ
  pub end_average_seconds : Option ℕ
  pub tie_rule : ShortWindowTieRule
  pub is_verified_rule : Bool
  pub rule_confidence : ShortWindowRuleConfidence
  pub notes : List String

pub data ShortWindowEventStatus : Type 0 where
  forming open_phase decision_zone no_entry_zone closed : ShortWindowEventStatus

pub data ShortWindowSourceType : Type 0 where
  live mock stored : ShortWindowSourceType

-- `${venue}:${symbol}:${interval}:${startTime}`
abbrev pub EventId : Type 0
EventId = ShortWindowVenue × SignalSymbol × ShortWindowInterval × ℕ

pub record ShortWindowEvent (F : Type 0) : Type 0 where
  pub id : EventId
  pub venue : ShortWindowVenue
  pub symbol : SignalSymbol
  pub interval : ShortWindowInterval
  pub start_time : ℕ
  pub end_time : ℕ
  pub status : ShortWindowEventStatus
  pub start_reference_price : Option F
  pub current_price : Option F
  pub distance_from_start : Option F
  pub distance_bps : Option F
  pub seconds_remaining : ℕ
  pub rule : ShortWindowContractRule
  pub source_type : ShortWindowSourceType

pub data ShortWindowSignalSide : Type 0 where
  long_up long_down wait rejected : ShortWindowSignalSide

pub data ResolvedSide : Type 0 where
  up down tie unknown : ResolvedSide
