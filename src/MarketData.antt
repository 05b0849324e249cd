-- ===== src/MarketData.antt =====
-- Market data, packages/research-signals/src/ohlcv/ and src/realtime/: candles put together to longer
-- ones, and the client of the live price stream.
pub mod Aggregate
pub mod Realtime
mod Tests
