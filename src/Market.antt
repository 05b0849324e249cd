-- ===== src/Market.antt =====
-- The shared contracts on market data (packages/shared-types/src/index.ts) that several parts use:
-- candles and real-time ticks. A timestamp is the number of milliseconds that `Date.parse` makes of
-- its text. Prices are of any type with the operations of `Number`.
use event_probability_termin.Base.{ℕ, Option, Bool, String}

pub data SignalSymbol : Type 0 where
  btc eth : SignalSymbol

pub data RealtimePriceSymbol : Type 0 where
  btcusdt ethusdt : RealtimePriceSymbol

pub data DataSourceType : Type 0 where
  live mock fixture : DataSourceType

pub data OhlcvInterval : Type 0 where
  m1 m5 m10 m15 m30 h1 h4 d1 w1 mo1 : OhlcvInterval

-- The fields that the modelled code reads or writes.
pub record Candle (F : Type 0) : Type 0 where
  pub source_type : DataSourceType
  pub symbol : SignalSymbol
  pub interval : OhlcvInterval
  -- seconds
  pub granularity : ℕ
  pub open_time : ℕ
  pub start_time : ℕ
  pub timestamp : ℕ
  pub open_price : F
  pub high : F
  pub low : F
  pub close : F
  pub volume : F
  pub is_closed : Bool

-- `event_time` is null where the text is empty.
pub record RealTimePriceTick (F : Type 0) : Type 0 where
  pub source_type : DataSourceType
  pub price : F
  pub bid_price : Option F
  pub ask_price : Option F
  pub event_time : Option ℕ
  pub received_at : ℕ
  pub latency_ms : Option ℕ

abbrev pub symbol_text : SignalSymbol → String
symbol_text SignalSymbol.btc = "BTC"
symbol_text SignalSymbol.eth = "ETH"

abbrev pub is_mock : DataSourceType → Bool
is_mock DataSourceType.mock = Bool.true
is_mock _ = Bool.false

-- `===` on intervals.
abbrev pub is_interval : OhlcvInterval → OhlcvInterval → Bool
is_interval OhlcvInterval.m1 OhlcvInterval.m1 = Bool.true
is_interval OhlcvInterval.m5 OhlcvInterval.m5 = Bool.true
is_interval OhlcvInterval.m10 OhlcvInterval.m10 = Bool.true
is_interval OhlcvInterval.m15 OhlcvInterval.m15 = Bool.true
is_interval OhlcvInterval.m30 OhlcvInterval.m30 = Bool.true
is_interval OhlcvInterval.h1 OhlcvInterval.h1 = Bool.true
is_interval OhlcvInterval.h4 OhlcvInterval.h4 = Bool.true
is_interval OhlcvInterval.d1 OhlcvInterval.d1 = Bool.true
is_interval OhlcvInterval.w1 OhlcvInterval.w1 = Bool.true
is_interval OhlcvInterval.mo1 OhlcvInterval.mo1 = Bool.true
is_interval _ _ = Bool.false
