-- ===== src/ShortWindow/Signal/Features.antt =====
-- `buildFeatures` and `directionalScore` of
-- packages/research-signals/src/short-window/signal-engine.ts.
use mathlib.Core.Option
use event_probability_termin.Base.{
  ℕ, ◌+◌, Option, none, some, Bool, true, not, ◌||◌, List, [], ◌∷◌, map, ltb, if◌then◌else◌, get_or,
  or_else, length, sort, at_end, take_end,
}
use event_probability_termin.Base.Number.{Number}
use event_probability_termin.Market.{Candle, RealTimePriceTick}
use event_probability_termin.ShortWindow.{ShortWindowEvent}
use event_probability_termin.ShortWindow.Settlement.{sum}
use event_probability_termin.ShortWindow.Window.{by_timestamp, round_bps, bps_between}

abbrev pub default_stale_after_ms : ℕ
default_stale_after_ms = 120_000

pub record MarketState (F : Type 0) : Type 0 where
  pub candles : List (Candle F)
  pub price_tick : Option (RealTimePriceTick F)
  pub bid : Option F
  pub ask : Option F
  pub latency_ms : Option ℕ
  pub now : ℕ
  pub stale_after_ms : Option ℕ
  pub min_confidence : Option F

-- `latest_tick_time` is null with no tick, and holds null where the text of the time is empty.
pub record FeaturePack (F : Type 0) : Type 0 where
  pub latest_candle_time : Option ℕ
  pub latest_tick_time : Option (Option ℕ)
  pub latency_ms : Option ℕ
  pub spread_bps : Option F
  pub momentum_bps : Option F
  pub volatility_bps : Option F
  pub candle_body_bps : Option F
  pub noise_threshold_bps : F
  pub is_stale : Bool

-- An absent or empty time makes the age infinite, which counts as stale.
unfoldable pub is_stale_at : (now limit : ℕ) → Option (Option ℕ) → Bool
is_stale_at now limit none = true
is_stale_at now limit (some none) = true
is_stale_at now limit (some (some time)) = ltb (time + limit) now

module _ {F : Type 0} ⦃N : Number F⦄ where
  abbrev pub bid_of : MarketState F → Option F
  bid_of state = or_else state.bid (elim state.price_tick [ none ↦ none | some t ↦ t.bid_price ])

  abbrev pub ask_of : MarketState F → Option F
  ask_of state = or_else state.ask (elim state.price_tick [ none ↦ none | some t ↦ t.ask_price ])

  -- The changes from candle to candle, in basis points; a previous close of zero is skipped.
  returns_bps : List (Candle F) → List F
  returns_bps [] = []
  returns_bps (previous ∷ []) = []
  returns_bps (previous ∷ current ∷ rest) =
      let others = returns_bps (current ∷ rest) in
      if N.eq previous.close (N.dec 0 0)
      then others
      else bps_between previous.close current.close ∷ others

  abbrev mean : List F → F
  mean values = N.div (sum values) (N.dec (length values) 0)

  unfoldable pub realized_volatility_bps : List (Candle F) → Option F
  unfolding returns_bps
  realized_volatility_bps candles =
      let returns = returns_bps candles in
      let centre = mean returns in
      let square = λ (v : F). N.mul (N.sub v centre) (N.sub v centre) in
      if ltb (length candles) 3 || ltb (length returns) 2
      then none
      else some (round_bps (N.sqrt (mean (map square returns))))

  abbrev spread_of : Option F → Option F → Option F
  spread_of (some bid) (some ask) =
      let mid = N.div (N.add bid ask) (N.dec 2 0) in
      if N.lt (N.dec 0 0) mid
      then some (round_bps (N.mul (N.div (N.sub ask bid) mid) (N.dec 10000 0)))
      else none
  spread_of _ _ = none

  -- Falls back where the price before is missing or zero.
  abbrev change_or : Option F → Option F → Option F → Option F
  change_or (some before) (some after) fallback =
      if N.eq before (N.dec 0 0) then fallback else some (round_bps (bps_between before after))
  change_or _ _ fallback = fallback

  noise_threshold : Option F → Option F → F
  noise_threshold volatility spread = N.largest (N.dec 2 0) (
      N.smallest (N.dec 35 0) (
        N.add
          (N.add (N.mul (get_or volatility (N.dec 3 0)) (N.dec 55 2))
            (N.mul (get_or spread (N.dec 1 0)) (N.dec 2 0)))
          (N.dec 15 1)))

  unfoldable pub build_features : ShortWindowEvent F → MarketState F → FeaturePack F
  unfolding realized_volatility_bps is_stale_at noise_threshold
  build_features event state =
      let sorted_candles = sort by_timestamp state.candles in
      let latest_candle = at_end 1 sorted_candles in
      let previous =
        or_else (at_end 4 sorted_candles) (elim sorted_candles [ [] ↦ none | c ∷ _ ↦ some c ]) in
      let latest_tick_time = Option.map (λ t. t.event_time) state.price_tick in
      let latest_candle_time = Option.map (λ c. c.timestamp) latest_candle in
      let latest_market_time = or_else latest_tick_time (Option.map some latest_candle_time) in
      let latest_close = Option.map (λ c. c.close) latest_candle in
      let spread_bps = spread_of (bid_of state) (ask_of state) in
      let volatility_bps = realized_volatility_bps (take_end 9 sorted_candles) in
      record {
        latest_candle_time = latest_candle_time;
        latest_tick_time = latest_tick_time;
        latency_ms =
            or_else state.latency_ms
              (elim state.price_tick [ none ↦ none | some t ↦ t.latency_ms ]);
        spread_bps = spread_bps;
        momentum_bps =
            change_or (Option.map (λ c. c.close) previous) latest_close event.distance_bps;
        volatility_bps = volatility_bps;
        candle_body_bps =
            change_or (Option.map (λ c. c.open_price) latest_candle) latest_close none;
        noise_threshold_bps = round_bps (noise_threshold volatility_bps spread_bps);
        is_stale =
            is_stale_at state.now (get_or state.stale_after_ms default_stale_after_ms)
              latest_market_time;
      }

  -- `a || b` of numbers
  abbrev truthy_or : F → F → F
  truthy_or a b = if N.eq a (N.dec 0 0) || not (N.le a a) then b else a

  unfoldable pub directional_score : ShortWindowEvent F → FeaturePack F → F
  directional_score event features =
      let zero = N.dec 0 0 in
      let distance = get_or event.distance_bps zero in
      let momentum = get_or features.momentum_bps zero in
      let body = get_or features.candle_body_bps zero in
      let spread_penalty = get_or features.spread_bps zero in
      let volatility_penalty =
        N.mul (N.largest zero (N.sub (get_or features.volatility_bps zero) (N.dec 35 0)))
          (N.dec 8 2) in
      round_bps (
        N.sub
          (N.add (N.add (N.mul distance (N.dec 52 2)) (N.mul momentum (N.dec 36 2)))
            (N.mul body (N.dec 12 2)))
          (N.mul (N.sign (truthy_or distance momentum))
            (N.add (N.mul spread_penalty (N.dec 15 1)) volatility_penalty)))
