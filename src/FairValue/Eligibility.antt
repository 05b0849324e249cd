-- ===== src/FairValue/Eligibility.antt =====
-- packages/research-signals/src/fair-value/market-eligibility.ts: the gate in front of the valuation.
-- `inferSymbols` is that of src/polymarket/market-mapper.ts.
pub mod Gate
use Prim.Native.String
use event_probability_termin.Base.{
  ℕ, Option, none, some, Bool, true, false, not, ◌&&◌, ◌||◌, List, [], ◌∷◌, ◌++◌, map, String, ltb,
  leb, if◌then◌else◌, get_or, is_some, is_none, is_empty, length, any, only_if, distinct, same_text,
}
use event_probability_termin.Base.Number.{Number}
use event_probability_termin.Market.{SignalSymbol, RealtimePriceSymbol}
use event_probability_termin.EventReplay.{
  FairValueComparator, FairValueResolutionRuleConfidence, FairValueMarketEligibility,
}
use event_probability_termin.FairValue.{
  PolymarketLiquidityStatus, BoundEventMarketStatus, EventMarketCandidate, EventMarketOdds,
  BoundEventMarket, Pattern, AmountPattern, Suffix, Language,
}

infixl 60 ◌<>◌
abbrev ◌<>◌ : String → String → String
s <> t = String.◌++◌ s t

pub record EligibilityOptions (F : Type 0) : Type 0 where
  pub max_spread : Option F
  pub min_liquidity_status : Option PolymarketLiquidityStatus
  -- null where absent
  pub now : Option ℕ

unfoldable pub liquidity_rank : PolymarketLiquidityStatus → ℕ
liquidity_rank PolymarketLiquidityStatus.unknown = 0
liquidity_rank PolymarketLiquidityStatus.thin = 1
liquidity_rank PolymarketLiquidityStatus.ok = 2

abbrev liquidity_text : PolymarketLiquidityStatus → String
liquidity_text PolymarketLiquidityStatus.unknown = "unknown"
liquidity_text PolymarketLiquidityStatus.thin = "thin"
liquidity_text PolymarketLiquidityStatus.ok = "ok"

abbrev pub is_bound : BoundEventMarketStatus → Bool
is_bound BoundEventMarketStatus.bound = true
is_bound _ = false

abbrev binding_text : BoundEventMarketStatus → String
binding_text BoundEventMarketStatus.bound = "bound"
binding_text BoundEventMarketStatus.ambiguous = "ambiguous"
binding_text BoundEventMarketStatus.unsupported = "unsupported"
binding_text BoundEventMarketStatus.failed = "failed"

abbrev pub is_unknown_liquidity : PolymarketLiquidityStatus → Bool
is_unknown_liquidity PolymarketLiquidityStatus.unknown = true
is_unknown_liquidity _ = false

abbrev pub is_hit : Option FairValueComparator → Bool
is_hit (some FairValueComparator.hit) = true
is_hit _ = false

abbrev pub is_vague_rule : FairValueResolutionRuleConfidence → Bool
is_vague_rule FairValueResolutionRuleConfidence.unknown = true
is_vague_rule FairValueResolutionRuleConfidence.low = true
is_vague_rule _ = false

-- The symbol of a market that is bound to its own underlying.
unfoldable pub extract_underlying_symbol :
    SignalSymbol → RealtimePriceSymbol → Option RealtimePriceSymbol
extract_underlying_symbol SignalSymbol.btc RealtimePriceSymbol.btcusdt =
    some RealtimePriceSymbol.btcusdt
extract_underlying_symbol SignalSymbol.eth RealtimePriceSymbol.ethusdt =
    some RealtimePriceSymbol.ethusdt
extract_underlying_symbol _ _ = none

abbrev pub liquidity_reasons :
    (least : PolymarketLiquidityStatus) → PolymarketLiquidityStatus → List String
liquidity_reasons least status =
    if is_unknown_liquidity status
    then "Market liquidityStatus is unknown." ∷ []
    else only_if (ltb (liquidity_rank status) (liquidity_rank least)) (
        "Market liquidityStatus "
        <> liquidity_text status
        <> " is below required "
        <> liquidity_text least
        <> ".")

-- `options.now && Date.parse(expiryTime) <= Date.parse(options.now)`
abbrev pub is_past : Option ℕ → ℕ → Bool
is_past none expiry = false
is_past (some now) expiry = leb expiry now

abbrev pub expiry_reasons : (now : Option ℕ) → Option ℕ → List String
expiry_reasons now none = "No valid expiry/endDate could be identified." ∷ []
expiry_reasons now (some expiry) =
    only_if (is_past now expiry) "Market expiry/endDate is not after checkedAt."

-- What is read from a market, with the options in force.
pub record Reading (F : Type 0) : Type 0 where
  pub max_spread : F
  pub least_liquidity : PolymarketLiquidityStatus
  pub symbol : Option RealtimePriceSymbol
  pub symbols : List SignalSymbol
  pub threshold : Option F
  pub comparator : Option FairValueComparator
  pub expiry : Option ℕ
  pub rule : FairValueResolutionRuleConfidence
  pub is_vague : Bool

module _ {F : Type 0} (language : Language F) where
  unfoldable pub combined_text : EventMarketCandidate → String
  combined_text market =
      language.lower_case
        (market.question <> " " <> market.slug <> " " <> get_or market.description "")

  unfoldable pub infer_symbols : EventMarketCandidate → List SignalSymbol
  unfolding combined_text
  infer_symbols market =
      let text = combined_text market in
      only_if (language.matches Pattern.bitcoin text) SignalSymbol.btc
      ++ only_if (language.matches Pattern.ethereum text) SignalSymbol.eth

  unfoldable pub has_yes_no_tokens : EventMarketCandidate → Bool
  has_yes_no_tokens market =
      let outcomes = map language.lower_case market.outcomes in
      leb 2 (length market.clob_token_ids)
      && any (same_text "yes") outcomes
      && any (same_text "no") outcomes

  unfoldable pub extract_comparator : EventMarketCandidate → Option FairValueComparator
  unfolding combined_text
  extract_comparator market =
      let text = combined_text market in
      if language.matches Pattern.hit_or_trade text
      then some FairValueComparator.hit
      else if language.matches Pattern.above_words text
      then some FairValueComparator.above
      else if language.matches Pattern.below_words text
      then some FairValueComparator.below
      else none

  unfoldable pub resolution_confidence :
      EventMarketCandidate
      → Option FairValueComparator
      → Option ℕ
      → FairValueResolutionRuleConfidence
  resolution_confidence market comparator expiry_time =
      let no_source = same_text (get_or market.resolution_source "") "" in
      if no_source || is_none expiry_time || is_none comparator
      then FairValueResolutionRuleConfidence.unknown
      else if is_hit comparator
      then FairValueResolutionRuleConfidence.low
      else if language.matches Pattern.resolution_words (combined_text market)
      then FairValueResolutionRuleConfidence.high
      else FairValueResolutionRuleConfidence.medium

module _ {F : Type 0} ⦃N : Number F⦄ where
  -- The first of the values that is present and finite.
  unfoldable pub first_number : List (Option F) → Option F
  first_number [] = none
  first_number (none ∷ values) = first_number values
  first_number (some value ∷ values) = if N.is_finite value then some value else first_number values

  unfoldable pub has_yes_no_prices : EventMarketOdds F → Bool
  unfolding first_number
  has_yes_no_prices odds =
      is_some (first_number (odds.yes_midpoint ∷ odds.yes_price ∷ []))
      && is_some (first_number (odds.no_midpoint ∷ odds.no_price ∷ []))

  -- An amount with its suffix.
  abbrev scaled : F → Suffix → F
  scaled base Suffix.no_suffix = base
  scaled base Suffix.thousand = N.mul base (N.dec 1000 0)
  scaled base Suffix.million = N.mul base (N.dec 1_000_000 0)

  unfoldable pub first_threshold_match : List (F × Suffix) → Option F
  first_threshold_match [] = none
  first_threshold_match ((base, suffix) ∷ rest) =
      let later = first_threshold_match rest in
      let value = scaled base suffix in
      if N.is_finite base && N.le (N.dec 100 0) value then some value else later

module _ {F : Type 0} ⦃N : Number F⦄ (language : Language F) where
  unfoldable pub extract_threshold_price : EventMarketCandidate → Option F
  unfolding combined_text first_threshold_match
  extract_threshold_price market =
      let text = combined_text language market in
      let suffixed = first_threshold_match (language.amounts AmountPattern.suffixed_amount text) in
      elim (first_threshold_match (language.amounts AmountPattern.dollar_amount text)) [
        | some dollar ↦ some dollar
        | none ↦ suffixed
      ]

  abbrev is_million : Option F → Bool
  is_million none = false
  is_million (some threshold) = N.le (N.dec 1_000_000 0) threshold

  unfoldable pub is_long_vague_event : String → Option F → Bool
  is_long_vague_event text threshold =
      language.matches Pattern.vague_words text
      || (language.matches Pattern.before text && language.matches Pattern.hit_words text)
      || (is_million threshold
          && language.matches Pattern.bitcoin text
          && language.matches Pattern.hit_or_before text)

  abbrev pub spread_reasons : (max_spread : F) → Option F → List String
  spread_reasons max_spread none = "Market spread is missing." ∷ []
  spread_reasons max_spread (some spread) =
      if not (N.is_finite spread)
      then "Market spread is missing." ∷ []
      else only_if (N.lt max_spread spread) (
          "Market spread "
          <> language.fixed 4 spread
          <> " exceeds maxSpread "
          <> language.fixed 4 max_spread
          <> ".")

  unfoldable pub read_market : BoundEventMarket F → EligibilityOptions F → Reading F
  unfolding extract_underlying_symbol infer_symbols extract_threshold_price extract_comparator
      resolution_confidence is_long_vague_event
  read_market bound options =
      let market = bound.market in
      let threshold = extract_threshold_price market in
      let comparator = extract_comparator language market in
      record {
        max_spread = get_or options.max_spread (N.dec 8 2);
        least_liquidity = get_or options.min_liquidity_status PolymarketLiquidityStatus.ok;
        symbol = extract_underlying_symbol bound.symbol bound.underlying_symbol;
        symbols = infer_symbols language market;
        threshold = threshold;
        comparator = comparator;
        expiry = market.end_date;
        rule = resolution_confidence language market comparator market.end_date;
        is_vague = is_long_vague_event (combined_text language market) threshold;
      }

  -- The reasons that the market's binding, tokens and odds give.
  abbrev pub odds_reasons : BoundEventMarket F → Reading F → List String
  odds_reasons bound r =
      only_if (not (is_bound bound.binding_status) || is_none r.symbol) (
        "Market is not clearly bound to one BTCUSDT/ETHUSDT underlying; bindingStatus="
        <> binding_text bound.binding_status
        <> ".")
      ++ (only_if (ltb 1 (length r.symbols))
            "Market text contains both BTC and ETH, so the underlying binding is ambiguous."
          ++ (only_if (is_empty r.symbols)
                "Market text does not explicitly name BTC/Bitcoin or ETH/Ethereum."
              ++ (only_if (not (has_yes_no_tokens language bound.market))
                    "Yes/No token IDs are missing or not binary."
                  ++ (only_if (not (has_yes_no_prices bound.odds))
                        "Yes/No price or midpoint is missing."
                      ++ (spread_reasons r.max_spread bound.odds.spread
                          ++ liquidity_reasons r.least_liquidity bound.odds.liquidity_status)))))

  -- The reasons that its terms give.
  abbrev pub terms_reasons : (now : Option ℕ) → Reading F → List String
  terms_reasons now r =
      only_if (is_none r.threshold)
        "No explicit BTC/ETH price threshold could be extracted from question, description, or slug."
      ++ (only_if (is_none r.comparator)
            "No clear above/below terminal direction could be extracted."
          ++ (expiry_reasons now r.expiry
              ++ (only_if (is_hit r.comparator)
                    "Path-dependent HIT/reach/trade-above market is not supported by terminal probability v1."
                  ++ (only_if (is_vague_rule r.rule)
                        "Resolution rule is not explicit enough for fair value v1."
                      ++ only_if r.is_vague
                          "Long or vague path-dependent event is out of scope for short-horizon K-line terminal modeling."))))

  unfoldable pub evaluate_market_eligibility :
      BoundEventMarket F → EligibilityOptions F → FairValueMarketEligibility F
  unfolding read_market has_yes_no_tokens has_yes_no_prices liquidity_rank
  evaluate_market_eligibility bound options =
      let r = read_market bound options in
      let reasons =
        odds_reasons bound r ++ (terms_reasons options.now r ++ bound.odds.fail_closed_reasons) in
      record {
        eligible = is_empty reasons;
        reject_reasons = distinct reasons;
        extracted = record {
          threshold_price = r.threshold;
          comparator = r.comparator;
          expiry_time = r.expiry;
          underlying_symbol = r.symbol;
          resolution_rule_confidence = r.rule;
        };
      }
