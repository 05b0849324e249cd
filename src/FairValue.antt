-- ===== src/FairValue.antt =====
-- The fair value of an event market, packages/research-signals/src/fair-value/: which markets may be
-- valued, the probability that a price ends above a threshold, and the edge over the market's odds.
-- The contracts are those of packages/shared-types/src/index.ts.
pub mod Eligibility
pub mod Probability
pub mod Edge
pub mod Response
mod Tests
use event_probability_termin.Base.{ℕ, Option, Bool, List, String}
use event_probability_termin.Market.{SignalSymbol, RealtimePriceSymbol}
use event_probability_termin.EventReplay.{FairValueSignalSide, FairValueMarketEligibility}

pub data PolymarketLiquidityStatus : Type 0 where
  ok thin unknown : PolymarketLiquidityStatus

pub data BoundEventMarketStatus : Type 0 where
  bound ambiguous unsupported failed : BoundEventMarketStatus

-- The fields that are read. `end_date` is null where the text is absent or is no date.
pub record EventMarketCandidate : Type 0 where
  pub market_id : String
  pub question : String
  pub slug : String
  pub description : Option String
  pub end_date : Option ℕ
  pub outcomes : List String
  pub clob_token_ids : List String
  pub resolution_source : Option String

pub record EventMarketOdds (F : Type 0) : Type 0 where
  pub yes_price : Option F
  pub no_price : Option F
  pub yes_midpoint : Option F
  pub no_midpoint : Option F
  pub spread : Option F
  pub liquidity_status : PolymarketLiquidityStatus
  pub fail_closed_reasons : List String

pub record BoundEventMarket (F : Type 0) : Type 0 where
  pub symbol : SignalSymbol
  pub underlying_symbol : RealtimePriceSymbol
  pub market : EventMarketCandidate
  pub odds : EventMarketOdds F
  pub realtime_underlying_price : Option F
  pub binding_status : BoundEventMarketStatus

pub record FairProbabilitySnapshot (F : Type 0) : Type 0 where
  pub symbol : SignalSymbol
  pub market_id : String
  pub question : String
  pub model_probability_yes : Option F
  pub market_probability_yes : Option F
  pub edge_yes : Option F
  pub edge_no : Option F
  pub fair_yes_price : Option F
  pub fair_no_price : Option F
  pub market_yes_price : Option F
  pub market_no_price : Option F
  pub spread : Option F
  pub confidence : F
  pub assumptions : List String
  pub warnings : List String
  pub reject_reasons : List String
  pub checked_at : ℕ

pub record FairValueSignalMarker (F : Type 0) : Type 0 where
  pub id : String
  pub symbol : SignalSymbol
  pub market_id : String
  pub time : ℕ
  pub price : F
  pub side : FairValueSignalSide
  pub label : String
  pub reason : String
  pub confidence : F
  pub model_probability_yes : Option F
  pub market_probability_yes : Option F
  pub edge : Option F

pub record FairValueRejectedMarket (F : Type 0) : Type 0 where
  pub symbol : SignalSymbol
  pub market_id : String
  pub question : String
  pub reject_reasons : List String
  pub eligibility : FairValueMarketEligibility F

-- The regular expressions that are tested, by the words that they look for.
pub data Pattern : Type 0 where
  bitcoin ethereum hit_or_trade above_words below_words resolution_words : Pattern
  vague_words before hit_words hit_or_before : Pattern

-- The expressions that look for an amount: `$ 100,000 k` and `100 k`.
pub data AmountPattern : Type 0 where
  dollar_amount suffixed_amount : AmountPattern

-- The suffix `k` or `m` of an amount.
pub data Suffix : Type 0 where
  no_suffix thousand million : Suffix

-- What the code uses of JavaScript's texts, regular expressions and functions on numbers.
pub record Language (F : Type 0) : Type 0 where
  pub lower_case : String → String
  -- `pattern.test(text)`
  pub matches : Pattern → String → Bool
  -- `text.matchAll(pattern)`: the numbers that are read, with their suffixes
  pub amounts : AmountPattern → String → List (F × Suffix)
  pub decimal : ℕ → String
  -- `x.toFixed(k)`
  pub fixed : ℕ → F → String
  pub iso : ℕ → String
  pub text_length : String → ℕ
  -- `text.slice(0, n)`
  pub slice : ℕ → String → String
  pub log : F → F
  pub exp : F → F
