-- ===== src/FairValue/Tests.antt =====
-- The theorems on the fair value at one concrete market: Bitcoin above 100,000 dollars, with the YES
-- token at forty cents and a price that has not moved.
use event_probability_termin.Base.{
  ℕ, ◌*◌, ◌≡◌, refl, inl, true, false, none, some, [], ◌∷◌, map, arith, Bool, ◌+◌, ◌%◌, is_empty,
  ◌↔◌,
}
use event_probability_termin.Base.Int.{pos, negsuc}
use event_probability_termin.Base.Fixed.{Fixed, fixed_number, Fixed-IsOrdered}
use event_probability_termin.Market.{
  Candle, DataSourceType, SignalSymbol, RealtimePriceSymbol, OhlcvInterval,
}
use event_probability_termin.FairValue.{
  PolymarketLiquidityStatus, BoundEventMarketStatus, BoundEventMarket, Pattern, Suffix, Language,
}
use event_probability_termin.FairValue.Eligibility.{
  EligibilityOptions, combined_text, infer_symbols, extract_underlying_symbol, has_yes_no_tokens,
  has_yes_no_prices, first_number, extract_comparator, first_threshold_match,
  extract_threshold_price, resolution_confidence, is_long_vague_event, liquidity_rank, read_market,
  evaluate_market_eligibility,
}
use event_probability_termin.FairValue.Eligibility.Gate.{eligible_iff}
use event_probability_termin.FairValue.Probability.{
  TerminalProbabilityInput, TerminalProbabilityResult, log_returns, sample_variance,
  median_interval_seconds, erf, standard_normal_cdf, empty_result, valued,
  estimate_terminal_above_probability,
}
use event_probability_termin.FairValue.Probability.Causal.{estimate-blind}
use event_probability_termin.FairValue.Probability.Bounds.{
  IsUnit, volatility_of, tail_probability, estimate-IsUnit,
}
use event_probability_termin.FairValue.Edge.{FairValueInput, evaluate_fair_value_market}
use event_probability_termin.FairValue.Edge.Sides.{FollowsEdges, valuation-FollowsEdges}

abbrev price : ℕ → Fixed
price n = pos (n * 100_000_000)

abbrev minute : ℕ → Candle Fixed
minute k = record {
  source_type = DataSourceType.live;
  symbol = SignalSymbol.btc;
  interval = OhlcvInterval.m1;
  granularity = 60;
  open_time = k * 60_000;
  start_time = k * 60_000;
  timestamp = k * 60_000;
  open_price = price 101_000;
  high = price 101_000;
  low = price 101_000;
  close = price 101_000;
  volume = price 1;
  is_closed = true;
}

-- What the regular expressions find in the market's text.
abbrev found : Pattern → Bool
found Pattern.bitcoin = true
found Pattern.above_words = true
found Pattern.resolution_words = true
found _ = false

abbrev language : Language Fixed
language = record {
  lower_case = λ text. text;
  matches = λ pattern text. found pattern;
  amounts = λ pattern text. (price 100, Suffix.thousand) ∷ [];
  decimal = λ n. "n";
  fixed = λ k x. "x";
  iso = λ t. "t";
  text_length = λ text. 20;
  slice = λ n text. text;
  log = λ x. pos 0;
  exp = λ x. pos 0;
}

abbrev market : BoundEventMarket Fixed
market = record {
  symbol = SignalSymbol.btc;
  underlying_symbol = RealtimePriceSymbol.btcusdt;
  market = record {
    market_id = "m1";
    question = "bitcoin above $100k?";
    slug = "bitcoin-above-100k";
    description = none;
    end_date = some 1_200_000;
    outcomes = "yes" ∷ "no" ∷ [];
    clob_token_ids = "1" ∷ "2" ∷ [];
    resolution_source = some "exchange";
  };
  odds = record {
    yes_price = some (pos 40_000_000);
    no_price = some (pos 60_000_000);
    yes_midpoint = none;
    no_midpoint = none;
    spread = some (pos 2_000_000);
    liquidity_status = PolymarketLiquidityStatus.ok;
    fail_closed_reasons = [];
  };
  realtime_underlying_price = none;
  binding_status = BoundEventMarketStatus.bound;
}

abbrev options : EligibilityOptions Fixed
options = record { max_spread = none; min_liquidity_status = none; now = some 900_000 }

eligible_iff_example : (evaluate_market_eligibility language market options).eligible ≡ true
unfolding read_market combined_text infer_symbols extract_underlying_symbol has_yes_no_tokens
    has_yes_no_prices first_number extract_comparator first_threshold_match extract_threshold_price
    resolution_confidence is_long_vague_event liquidity_rank
eligible_iff_example = (eligible_iff language market options).1 (
  (
    refl,
    (RealtimePriceSymbol.btcusdt, refl),
    refl,
    refl,
    refl,
    (pos 2_000_000, refl, refl, refl),
    refl,
    omega arith,
  ),
  ((price 100_000, refl), inl refl, (1_200_000, refl, refl), refl, refl),
  refl,
)

abbrev input : FairValueInput Fixed
input = record {
  symbol = SignalSymbol.btc;
  current_price = some (price 101_000);
  candles = map minute (0 ∷ 1 ∷ 2 ∷ 3 ∷ 4 ∷ 5 ∷ 6 ∷ 7 ∷ 8 ∷ 9 ∷ 10 ∷ 11 ∷ []);
  market = market;
  odds = market.odds;
  now = 900_000;
  horizon_seconds = price 300;
  fees_bps = pos 0;
  slippage_bps = pos 0;
  min_edge_bps = price 250;
  max_spread = pos 8_000_000;
  volatility_lookback_candles = none;
  min_confidence = none;
  min_liquidity_status = PolymarketLiquidityStatus.ok;
}

valuation-FollowsEdges_example :
    FollowsEdges language input (evaluate_fair_value_market language input)
valuation-FollowsEdges_example = valuation-FollowsEdges language input

-- A price that goes up and down, a logarithm and an exponential that are near enough, and one candle
-- that is later than the instant.
abbrev curved : Language Fixed
curved = record language {
  log = λ x. fixed_number.sub x (pos 100_000_000);
  exp = λ x. fixed_number.div (pos 100_000_000) (fixed_number.sub (pos 100_000_000) x);
}

abbrev moving : ℕ → Candle Fixed
moving k = record (minute k) { close = price (101_000 + k % 2 * 500) }

abbrev terminal : TerminalProbabilityInput Fixed
terminal = record {
  current_price = some (price 101_000);
  threshold_price = price 100_000;
  candles = map moving (0 ∷ 1 ∷ 2 ∷ 3 ∷ 4 ∷ 5 ∷ 6 ∷ 7 ∷ 8 ∷ 9 ∷ 10 ∷ 11 ∷ 20 ∷ []);
  horizon_seconds = price 300;
  now = some 900_000;
}

le_same : (x : Fixed) → fixed_number.le x x ≡ true
le_same (pos n) = ground arith
le_same (negsuc n) = ground arith

abbrev estimate : TerminalProbabilityResult Fixed
estimate = estimate_terminal_above_probability curved terminal

estimate-IsUnit_example : IsUnit Fixed-IsOrdered curved (pos 79_449_100)
unfolding estimate_terminal_above_probability log_returns sample_variance median_interval_seconds
    valued standard_normal_cdf erf empty_result
estimate-IsUnit_example =
    estimate-IsUnit Fixed-IsOrdered curved terminal (pos 79_449_100)
      (λ p e flat. le_same (
        tail_probability Fixed-IsOrdered curved terminal p
          (volatility_of Fixed-IsOrdered curved terminal)))
      refl

-- The estimate leaves the candle of the twentieth minute out, and has no reason against it.
estimate-blind_example :
    (estimate_terminal_above_probability curved (record terminal {
      candles = map moving (0 ∷ 1 ∷ 2 ∷ 3 ∷ 4 ∷ 5 ∷ 6 ∷ 7 ∷ 8 ∷ 9 ∷ 10 ∷ 11 ∷ 30 ∷ 40 ∷ []);
    })
      ≡ estimate)
    × ((estimate.probability_above ≡ none) ↔ (is_empty estimate.reject_reasons ≡ false))
estimate-blind_example =
    estimate-blind curved terminal 900_000
      (map moving (0 ∷ 1 ∷ 2 ∷ 3 ∷ 4 ∷ 5 ∷ 6 ∷ 7 ∷ 8 ∷ 9 ∷ 10 ∷ 11 ∷ 30 ∷ 40 ∷ [])) refl refl
