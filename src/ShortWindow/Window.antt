-- ===== src/ShortWindow/Window.antt =====
-- packages/research-signals/src/short-window/window-engine.ts: the window that is current at an
-- instant, its phase, and its reference prices.
pub mod Phases
pub mod Causal
use Prim.Native.Nat.{min}
use event_probability_termin.Base.{
  ℕ, ◌+◌, ◌-◌, ◌*◌, ◌/◌, Option, none, some, Bool, true, false, not, ◌&&◌, ◌||◌, List, map, ltb,
  leb, if◌then◌else◌, get_or, or_else, is_some, filter, first?, sort, any,
}
use event_probability_termin.Base.Number.{Number}
use event_probability_termin.Market.{SignalSymbol, Candle, RealTimePriceTick, is_mock}
use event_probability_termin.ShortWindow.{
  ShortWindowVenue, ShortWindowInterval, ShortWindowRuleType, ShortWindowContractRule,
  ShortWindowEvent, ShortWindowEventStatus, ShortWindowSourceType,
}
use event_probability_termin.ShortWindow.Rules.{short_window_interval_ms}
use event_probability_termin.ShortWindow.Settlement.{round_price, rounded_mean, overlaps}

abbrev pub forming_seconds : ℕ
forming_seconds = 30

abbrev pub decision_zone_start_seconds : ℕ
decision_zone_start_seconds = 120

abbrev pub no_entry_zone_seconds : ℕ
no_entry_zone_seconds = 20

pub record BuildCurrentInput (F : Type 0) : Type 0 where
  pub symbol : SignalSymbol
  pub interval : ShortWindowInterval
  pub venue : ShortWindowVenue
  pub now : ℕ
  pub price_ticks : List (RealTimePriceTick F)
  pub candles : List (Candle F)
  pub rule : ShortWindowContractRule

-- `Math.ceil(ms / 1000)`
abbrev pub ceil_seconds : ℕ → ℕ
ceil_seconds ms = (ms + 999) / 1000

unfoldable pub event_status :
    (now_ms start_ms end_ms seconds_remaining elapsed_seconds : ℕ) → Bool → ShortWindowEventStatus
event_status now_ms start_ms end_ms seconds_remaining elapsed_seconds has_start_reference =
    if leb end_ms now_ms
    then ShortWindowEventStatus.closed
    else if ltb now_ms start_ms || ltb elapsed_seconds forming_seconds || not has_start_reference
    then ShortWindowEventStatus.forming
    else if leb seconds_remaining no_entry_zone_seconds
    then ShortWindowEventStatus.no_entry_zone
    else if leb seconds_remaining decision_zone_start_seconds
    then ShortWindowEventStatus.decision_zone
    else ShortWindowEventStatus.open_phase

-- `Math.max(0, …)` of a difference is the subtraction that stops at 0.
unfoldable pub resolve_short_window_phase :
    (now_ms start_ms end_ms : ℕ) → Option Bool → ShortWindowEventStatus
unfolding event_status
resolve_short_window_phase now_ms start_ms end_ms has_start_reference =
    event_status now_ms start_ms end_ms (ceil_seconds (end_ms - now_ms))
      ((now_ms - start_ms) / 1000) (get_or has_start_reference true)

abbrev is_mock_venue : ShortWindowVenue → Bool
is_mock_venue ShortWindowVenue.mock = true
is_mock_venue _ = false

module _ {F : Type 0} ⦃N : Number F⦄ where
  abbrev pub tick_ms : RealTimePriceTick F → ℕ
  tick_ms tick = get_or tick.event_time tick.received_at

  abbrev pub by_timestamp : Candle F → Candle F → Bool
  by_timestamp a b = ltb a.timestamp b.timestamp

  abbrev pub by_timestamp_desc : Candle F → Candle F → Bool
  by_timestamp_desc a b = ltb b.timestamp a.timestamp

  -- The start of the averaging span to its end, cut at `now`.
  unfoldable pub average_reference :
      List (Candle F) → List (RealTimePriceTick F) → (start_ms seconds now : ℕ) → Option F
  average_reference candles ticks start_ms seconds now =
      let end_ms = min (start_ms + seconds * 1000) now in
      let in_span : RealTimePriceTick F → Bool = λ tick.
        leb start_ms (tick_ms tick) && leb (tick_ms tick) end_ms && N.is_finite tick.price in
      or_else (rounded_mean (map (λ t. t.price) (filter in_span ticks))) (
        rounded_mean
          (filter N.is_finite (map (λ c. c.close) (filter (overlaps start_ms end_ms) candles))))

  -- The price of a tick, else of the first candle that there is, at its open or close.
  unfoldable pub price_of :
      (Candle F → F)
      → Option (RealTimePriceTick F)
      → Option (Candle F)
      → Option (Candle F)
      → Option F
  price_of price (some tick) candle other = some (round_price tick.price)
  price_of price none (some candle) other = some (round_price (price candle))
  price_of price none none (some candle) = some (round_price (price candle))
  price_of price none none none = none

  -- The first tick of the window, else its first candle, else the candle that covers its start.
  unfoldable pub opening_price :
      List (Candle F) → List (RealTimePriceTick F) → (start_ms now : ℕ) → Option F
  opening_price candles ticks start_ms now =
      price_of (λ c. c.open_price)
        (first? (
          sort (λ a b. ltb (tick_ms a) (tick_ms b))
            (filter (λ t. leb start_ms (tick_ms t) && leb (tick_ms t) now && N.is_finite t.price)
              ticks)))
        (first? (
          sort by_timestamp
            (filter (λ c. leb start_ms c.timestamp && leb c.timestamp now) candles)))
        (first? (
          sort by_timestamp_desc (
            filter
              (λ c. leb c.timestamp start_ms && ltb start_ms (c.timestamp + c.granularity * 1000))
              candles)))

  unfoldable pub resolve_start_reference_price :
      List (Candle F)
      → List (RealTimePriceTick F)
      → (start_time now : ℕ) → ShortWindowContractRule
      → Option F
  resolve_start_reference_price candles ticks start_time now rule = elim rule.rule_type [
    | ShortWindowRuleType.unknown_manual_reference ↦ none
    | ShortWindowRuleType.end_avg_gte_start_avg ↦
        average_reference candles ticks start_time (get_or rule.start_average_seconds 60) now
    | ShortWindowRuleType.end_price_gte_start_price ↦ opening_price candles ticks start_time now
  ]

  -- The latest tick, else the close of the latest candle.
  unfoldable pub resolve_current_price : List (RealTimePriceTick F) → List (Candle F) → ℕ → Option F
  resolve_current_price ticks candles now =
      price_of (λ c. c.close)
        (first? (
          sort (λ a b. ltb (tick_ms b) (tick_ms a))
            (filter (λ t. leb (tick_ms t) now && N.is_finite t.price) ticks)))
        (first? (
          sort by_timestamp_desc
            (filter (λ c. leb c.timestamp now && N.is_finite c.close) candles)))
        none

  unfoldable pub resolve_source_type :
      List (RealTimePriceTick F) → List (Candle F) → ShortWindowVenue → ShortWindowSourceType
  resolve_source_type ticks candles venue =
      if is_mock_venue venue
        || any (λ t. is_mock t.source_type) ticks
        || any (λ c. is_mock c.source_type) candles
      then ShortWindowSourceType.mock
      else ShortWindowSourceType.live

  abbrev pub round_bps : F → F
  round_bps value = N.to_fixed 4 value

  -- `((to - from) / from) * 10_000`
  abbrev pub bps_between : F → F → F
  bps_between from to = N.mul (N.div (N.sub to from) from) (N.dec 10000 0)

  abbrev distance_bps_of : Option F → Option F → Option F
  distance_bps_of (some start) (some current) =
      if N.eq start (N.dec 0 0) then none else some (round_bps (bps_between start current))
  distance_bps_of _ _ = none

  abbrev distance_of : Option F → Option F → Option F
  distance_of (some start) (some current) = some (round_price (N.sub current start))
  distance_of _ _ = none

  unfoldable pub build_current_short_window_event : BuildCurrentInput F → ShortWindowEvent F
  build_current_short_window_event input =
      let interval_ms = short_window_interval_ms input.interval in
      let start_ms = input.now / interval_ms * interval_ms in
      let end_ms = start_ms + interval_ms in
      let seconds_remaining = ceil_seconds (end_ms - input.now) in
      let elapsed_seconds = (input.now - start_ms) / 1000 in
      let start_reference_price =
        resolve_start_reference_price input.candles input.price_ticks start_ms input.now
          input.rule in
      let current_price = resolve_current_price input.price_ticks input.candles input.now in
      record {
        id = (input.venue, input.symbol, input.interval, start_ms);
        venue = input.venue;
        symbol = input.symbol;
        interval = input.interval;
        start_time = start_ms;
        end_time = end_ms;
        status =
            event_status input.now start_ms end_ms seconds_remaining elapsed_seconds
              (is_some start_reference_price);
        start_reference_price = start_reference_price;
        current_price = current_price;
        distance_from_start = distance_of start_reference_price current_price;
        distance_bps = distance_bps_of start_reference_price current_price;
        seconds_remaining = seconds_remaining;
        rule = input.rule;
        source_type = resolve_source_type input.price_ticks input.candles input.venue;
      }
