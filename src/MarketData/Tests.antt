-- ===== src/MarketData/Tests.antt =====
-- The theorems on market data at concrete candles and events.
use event_probability_termin.Base.{ℕ, ◌*◌, ◌≤◌, ◌≡◌, refl, true, List, [], ◌∷◌, All, all}
use event_probability_termin.Base.Int.{pos}
use event_probability_termin.Base.Fixed.{Fixed, fixed_number}
use event_probability_termin.Market.{Candle, DataSourceType, SignalSymbol, OhlcvInterval}
use event_probability_termin.MarketData.Aggregate.{
  Printer, by_open_time, aggregate_candles_to_interval,
}
use event_probability_termin.MarketData.Aggregate.Buckets.{
  bucket_candles, aggregate_refines_buckets,
}
use event_probability_termin.MarketData.Aggregate.Times.{OpenLater, IsAligned, aggregate-OpenLater}
use event_probability_termin.MarketData.Realtime.{
  ClientOptions, Client, Event, new_client, default_options, start, open_client, stop, run_events,
}
use event_probability_termin.MarketData.Realtime.Stopped.{is_quiet, stopped_client-StaysStopped}
use event_probability_termin.MarketData.Realtime.Bounded.{reconnects-AreBounded}

abbrev minute : ℕ → ℕ → Candle Fixed
minute k close = record {
  source_type = DataSourceType.live;
  symbol = SignalSymbol.btc;
  interval = OhlcvInterval.m1;
  granularity = 60;
  open_time = k * 60_000;
  start_time = k * 60_000;
  timestamp = k * 60_000;
  open_price = pos close;
  high = pos close;
  low = pos close;
  close = pos close;
  volume = pos 1;
  is_closed = true;
}

abbrev printer : Printer
printer = record { decimal = λ n. "n"; iso = λ t. "t" }

-- Seven minutes, out of order, of which five fall into the first interval.
abbrev minutes : List (Candle Fixed)
minutes =
    minute 6 106
    ∷ minute 0 100
    ∷ minute 1 101
    ∷ minute 3 103
    ∷ minute 2 102
    ∷ minute 4 104
    ∷ minute 5 105
    ∷ []

aggregate_refines_buckets_example :
    (aggregate_candles_to_interval printer minutes OhlcvInterval.m5).candles
    ≡ bucket_candles OhlcvInterval.m5 (by_open_time minutes)
aggregate_refines_buckets_example = aggregate_refines_buckets printer minutes OhlcvInterval.m5

aggregate-OpenLater_example :
    let result = (aggregate_candles_to_interval printer minutes OhlcvInterval.m5).candles in
    OpenLater result × All (IsAligned OhlcvInterval.m5) result
aggregate-OpenLater_example = aggregate-OpenLater printer minutes OhlcvInterval.m5

abbrev options : ClientOptions
options = default_options SignalSymbol.btc (λ n. "n")

-- A client that was started and whose first socket has closed, so that a timer runs.
abbrev waiting : Client
waiting =
    (run_events {F = Fixed} options (Event.start_call ∷ Event.socket_close 0 ∷ []) new_client).0

-- The old socket closes once more, late, and the timer runs out.
abbrev late_events : List (Event Fixed)
late_events = Event.socket_close 0 ∷ Event.reconnect_timeout 1 ∷ Event.stale_timeout 0 90_000 ∷ []

stopped_client-StaysStopped_example :
    let (after, actions) = run_events options late_events (stop {F = Fixed} options waiting).0 in
    (after.sockets ≡ waiting.sockets) × (all is_quiet actions ≡ true)
stopped_client-StaysStopped_example = stopped_client-StaysStopped options late_events waiting refl

-- The client of which one socket is open, and which may reconnect three times.
abbrev started : Client
started = (start {F = Fixed} options new_client).0

abbrev closing_events : List (Event Fixed)
closing_events =
    Event.socket_close 0
    ∷ Event.reconnect_timeout 1
    ∷ Event.socket_error 1
    ∷ Event.socket_close 1
    ∷ []

reconnects-AreBounded_example : (run_events options closing_events started).0.sockets ≤ 4
unfolding start open_client
reconnects-AreBounded_example = reconnects-AreBounded options closing_events started refl
