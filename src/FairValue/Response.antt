-- ===== src/FairValue/Response.antt =====
-- buildFairValueSignalResponse of packages/research-signals/src/fair-value/edge.ts: the valuation of
-- each bound market, and the markets that are rejected.
pub mod Counts
use mathlib.Core.Option
use Prim.Native.String
use event_probability_termin.Base.{
  ℕ, ◌+◌, Option, Bool, not, ◌&&◌, List, [], ◌∷◌, ◌++◌, map, String, if◌then◌else◌, get_or, or_else,
  filter, is_empty, distinct, only_if,
}
use event_probability_termin.Base.Number.{Number}
use event_probability_termin.Market.{SignalSymbol, Candle, DataSourceType}
use event_probability_termin.EventReplay.Metrics.{ReplaySymbolFilter}
use event_probability_termin.FairValue.{
  PolymarketLiquidityStatus, BoundEventMarket, FairProbabilitySnapshot, FairValueSignalMarker,
  FairValueRejectedMarket, Language,
}
use event_probability_termin.FairValue.Edge.{
  FairValueInput, FairValueEvaluation, zero_f, evaluate_fair_value_market,
}

pub record BuildFairValueSignalResponseInput (F : Type 0) : Type 0 where
  pub symbol : ReplaySymbolFilter
  pub checked_at : ℕ
  pub source_type : DataSourceType
  pub markets : List (BoundEventMarket F)
  pub candles_by_symbol : SignalSymbol → Option (List (Candle F))
  pub current_price_by_symbol : SignalSymbol → Option F
  pub horizon_seconds : Option F
  pub fees_bps : Option F
  pub slippage_bps : Option F
  pub min_edge_bps : Option F
  pub max_spread : Option F
  pub volatility_lookback_candles : Option F
  pub min_confidence : Option F
  pub min_liquidity_status : Option PolymarketLiquidityStatus
  pub warnings : List String

-- Without the health of the provider, which is passed on.
pub record FairValueSignalResponse (F : Type 0) : Type 0 where
  pub symbol : ReplaySymbolFilter
  pub checked_at : ℕ
  pub source_type : DataSourceType
  pub snapshots : List (FairProbabilitySnapshot F)
  pub markers : List (FairValueSignalMarker F)
  pub rejected_markets : List (FairValueRejectedMarket F)
  pub warnings : List String

module _ {F : Type 0} where
  abbrev pub is_accepted : FairValueEvaluation F → Bool
  is_accepted e = e.eligibility.eligible && is_empty e.snapshot.reject_reasons

module _ {F : Type 0} ⦃N : Number F⦄ where
  -- The input for one market, with the defaults.
  unfoldable pub input_for :
      BuildFairValueSignalResponseInput F → BoundEventMarket F → FairValueInput F
  input_for input market = record {
    symbol = market.symbol;
    current_price =
        or_else (input.current_price_by_symbol market.symbol) market.realtime_underlying_price;
    candles = get_or (input.candles_by_symbol market.symbol) [];
    market = market;
    odds = market.odds;
    now = input.checked_at;
    horizon_seconds = get_or input.horizon_seconds (N.dec 300 0);
    fees_bps = get_or input.fees_bps zero_f;
    slippage_bps = get_or input.slippage_bps zero_f;
    min_edge_bps = get_or input.min_edge_bps (N.dec 250 0);
    max_spread = get_or input.max_spread (N.dec 8 2);
    volatility_lookback_candles = input.volatility_lookback_candles;
    min_confidence = input.min_confidence;
    min_liquidity_status = get_or input.min_liquidity_status PolymarketLiquidityStatus.ok;
  }

module _ {F : Type 0} ⦃N : Number F⦄ (language : Language F) where
  -- The rejected markets of the loop.
  abbrev pub rejected_of :
      BuildFairValueSignalResponseInput F
      → List (BoundEventMarket F)
      → List (FairValueRejectedMarket F)
  rejected_of input [] = []
  rejected_of input (market ∷ markets) =
      let e = evaluate_fair_value_market language (input_for input market) in
      let rest = rejected_of input markets in
      let rejected : FairValueRejectedMarket F = record {
        symbol = market.symbol;
        market_id = market.market.market_id;
        question = market.market.question;
        reject_reasons = distinct (e.eligibility.reject_reasons ++ e.snapshot.reject_reasons);
        eligibility = e.eligibility;
      } in
      if is_accepted e then rest else rejected ∷ rest

  unfoldable pub build_fair_value_signal_response :
      BuildFairValueSignalResponseInput F → FairValueSignalResponse F
  unfolding evaluate_fair_value_market input_for
  build_fair_value_signal_response input =
      let evaluations =
        map (λ m. evaluate_fair_value_market language (input_for input m)) input.markets in
      let rejected = rejected_of input input.markets in
      record {
        symbol = input.symbol;
        checked_at = input.checked_at;
        source_type = input.source_type;
        snapshots = map (λ e. e.snapshot) (filter is_accepted evaluations);
        markers = map (λ e. e.marker) evaluations;
        rejected_markets = rejected;
        warnings = distinct (
            input.warnings
            ++ ("Research only. Not trading advice. No automated trading action."
                ∷ only_if (not (is_empty rejected))
                    "Rejected markets failed closed before fair value calculation."));
      }
