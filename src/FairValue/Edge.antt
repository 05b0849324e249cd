-- ===== src/FairValue/Edge.antt =====
-- packages/research-signals/src/fair-value/edge.ts: the edge of a market's model probability over its
-- odds, and the side that it leads to.
pub mod Sides
use mathlib.Core.Option
use Prim.Native.String
use event_probability_termin.Base.{
  ℕ, ◌+◌, ◌-◌, Option, none, some, Bool, true, false, not, List, [], ◌∷◌, ◌++◌, map, String, ltb,
  if◌then◌else◌, get_or, or_else, length, is_empty, first?, last?, drop,
}
use event_probability_termin.Base.Number.{Number}
use event_probability_termin.Market.{SignalSymbol, Candle}
use event_probability_termin.EventReplay.{
  FairValueComparator, FairValueSignalSide, FairValueMarketEligibility,
}
use event_probability_termin.FairValue.{
  PolymarketLiquidityStatus, EventMarketOdds, BoundEventMarket, FairProbabilitySnapshot,
  FairValueSignalMarker, Language,
}
use event_probability_termin.FairValue.Eligibility.{evaluate_market_eligibility, first_number}
use event_probability_termin.FairValue.Probability.{
  TerminalProbabilityResult, fair_value_assumptions, estimate_terminal_above_probability,
}

infixl 60 ◌<>◌
abbrev ◌<>◌ : String → String → String
s <> t = String.◌++◌ s t

pub record FairValueInput (F : Type 0) : Type 0 where
  pub symbol : SignalSymbol
  pub current_price : Option F
  pub candles : List (Candle F)
  pub market : BoundEventMarket F
  pub odds : EventMarketOdds F
  pub now : ℕ
  pub horizon_seconds : F
  pub fees_bps : F
  pub slippage_bps : F
  pub min_edge_bps : F
  pub max_spread : F
  pub volatility_lookback_candles : Option F
  pub min_confidence : Option F
  pub min_liquidity_status : PolymarketLiquidityStatus

pub record FairValueEvaluation (F : Type 0) : Type 0 where
  pub snapshot : FairProbabilitySnapshot F
  pub marker : FairValueSignalMarker F
  pub eligibility : FairValueMarketEligibility F

abbrev side_text : FairValueSignalSide → String
side_text FairValueSignalSide.long_yes = "LONG_YES"
side_text FairValueSignalSide.long_no = "LONG_NO"
side_text FairValueSignalSide.no_signal = "NO_SIGNAL"
side_text FairValueSignalSide.rejected = "REJECTED"

module _ {F : Type 0} ⦃N : Number F⦄ where
  abbrev pub zero_f : F
  zero_f = N.dec 0 0

  abbrev pub round : F → F
  round = N.to_fixed 6

  -- `candles.slice(-Math.floor(lookback))`, all of them where that is infinite, and none where it is
  -- not positive.
  unfoldable pub lookback_candles : List (Candle F) → Option F → List (Candle F)
  lookback_candles candles none = candles
  lookback_candles candles (some lookback) =
      let normalized = N.floor lookback in
      if N.le (N.dec 1 0) lookback
      then (if N.is_finite lookback then drop (length candles - normalized) candles else candles)
      else []

  -- `value !== null && value >= limit`
  abbrev pub reaches : Option F → F → Bool
  reaches none limit = false
  reaches (some value) limit = N.le limit value

  -- `minConfidence !== undefined && confidence < minConfidence`
  abbrev pub lacks_confidence : Option F → F → Bool
  lacks_confidence none confidence = false
  lacks_confidence (some least) confidence = N.lt confidence least

  unfoldable pub side_from_edges :
      (reject_reasons : List String) (edge_yes edge_no : Option F) (min_edge confidence : F)
      (min_confidence : Option F)
      → FairValueSignalSide
  side_from_edges reject_reasons edge_yes edge_no min_edge confidence min_confidence =
      if not (is_empty reject_reasons)
      then FairValueSignalSide.rejected
      else if lacks_confidence min_confidence confidence
      then FairValueSignalSide.no_signal
      else if reaches edge_yes min_edge
      then FairValueSignalSide.long_yes
      else if reaches edge_no min_edge
      then FairValueSignalSide.long_no
      else FairValueSignalSide.no_signal

  abbrev pub edge_on_side : FairProbabilitySnapshot F → FairValueSignalSide → Option F
  edge_on_side snapshot FairValueSignalSide.long_yes = snapshot.edge_yes
  edge_on_side snapshot FairValueSignalSide.long_no = snapshot.edge_no
  edge_on_side snapshot _ = none

  -- `1 - value`, rounded, of what is present.
  abbrev pub complement : Option F → Option F
  complement = Option.map (λ p. round (N.sub (N.dec 1 0) p))

  -- `model - market - cost`, rounded, where both are present.
  abbrev pub edge_between : Option F → Option F → (cost : F) → Option F
  edge_between (some model) (some market) cost = some (round (N.sub (N.sub model market) cost))
  edge_between _ _ cost = none

module _ {F : Type 0} ⦃N : Number F⦄ (language : Language F) where
  unfoldable pub format_edge : Option F → String
  format_edge none = "n/a"
  format_edge (some value) =
      let sign = if N.le zero_f value then "+" else "" in
      sign <> language.fixed 1 (N.mul value (N.dec 100 0)) <> "%"

  unfoldable pub short_reason : String → String
  short_reason reason =
      if ltb 36 (language.text_length reason) then language.slice 33 reason <> "..." else reason

  unfoldable pub label_for : FairValueSignalSide → Option F → (reason : String) → String
  unfolding format_edge short_reason
  label_for FairValueSignalSide.long_yes edge reason = "YES " <> format_edge edge
  label_for FairValueSignalSide.long_no edge reason = "NO " <> format_edge edge
  label_for FairValueSignalSide.rejected edge reason = "Rejected: " <> short_reason reason
  label_for FairValueSignalSide.no_signal edge reason = "No signal"

  unfoldable pub marker_reason : FairProbabilitySnapshot F → FairValueSignalSide → String
  unfolding format_edge
  marker_reason snapshot FairValueSignalSide.long_yes =
      "YES edge " <> format_edge snapshot.edge_yes <> " after fee/slippage buffer."
  marker_reason snapshot FairValueSignalSide.long_no =
      "NO edge " <> format_edge snapshot.edge_no <> " after fee/slippage buffer."
  marker_reason snapshot FairValueSignalSide.rejected =
      get_or (first? snapshot.reject_reasons) "Rejected by fair value engine."
  marker_reason snapshot FairValueSignalSide.no_signal =
      "Model-vs-market edge is below the research signal threshold."

  unfoldable pub marker_from_snapshot :
      FairProbabilitySnapshot F
      → FairValueInput F
      → FairValueSignalSide
      → (reason : String) → FairValueSignalMarker F
  unfolding label_for
  marker_from_snapshot snapshot input side reason =
      let latest = last? input.candles in
      let edge = edge_on_side snapshot side in
      record {
        id =
            "fair-value:"
            <> snapshot.market_id
            <> ":"
            <> side_text side
            <> ":"
            <> language.iso snapshot.checked_at;
        symbol = input.symbol;
        market_id = snapshot.market_id;
        time = get_or (Option.map (λ c. c.timestamp) latest) input.now;
        price = get_or (or_else input.current_price (Option.map (λ c. c.close) latest)) zero_f;
        side = side;
        label = label_for side edge reason;
        reason = reason;
        confidence = snapshot.confidence;
        model_probability_yes = snapshot.model_probability_yes;
        market_probability_yes = snapshot.market_probability_yes;
        edge = edge;
      }

  abbrev pub market_yes_price : FairValueInput F → Option F
  market_yes_price input = first_number (input.odds.yes_midpoint ∷ input.odds.yes_price ∷ [])

  abbrev pub market_no_price : FairValueInput F → Option F
  market_no_price input = first_number (input.odds.no_midpoint ∷ input.odds.no_price ∷ [])

  -- The snapshot of a market that is not valued, for these reasons.
  unfoldable pub unvalued : FairValueInput F → (reasons : List String) → FairProbabilitySnapshot F
  unvalued input reasons = record {
    symbol = input.symbol;
    market_id = input.market.market.market_id;
    question = input.market.market.question;
    model_probability_yes = none;
    market_probability_yes = market_yes_price input;
    edge_yes = none;
    edge_no = none;
    fair_yes_price = none;
    fair_no_price = none;
    market_yes_price = market_yes_price input;
    market_no_price = market_no_price input;
    spread = input.odds.spread;
    confidence = zero_f;
    assumptions = fair_value_assumptions;
    warnings = [];
    reject_reasons = reasons;
    checked_at = input.now;
  }

  -- `comparator === "BELOW"`
  abbrev is_below : FairValueComparator → Bool
  is_below FairValueComparator.below = true
  is_below _ = false

  abbrev confidence_of : TerminalProbabilityResult F → F
  confidence_of probability =
      let share = N.div (N.dec probability.usable_return_count 0) (N.dec 120 0) in
      let damping = if is_empty probability.warnings then N.dec 1 0 else N.dec 75 2 in
      if is_empty probability.reject_reasons
      then round (N.mul (N.smallest (N.dec 82 2) (N.largest (N.dec 12 2) share)) damping)
      else zero_f

  -- The snapshot of a market whose probability has been estimated.
  unfoldable pub valued_snapshot :
      FairValueInput F
      → FairValueComparator
      → TerminalProbabilityResult F
      → FairProbabilitySnapshot F
  unfolding unvalued
  valued_snapshot input comparator probability =
      let above = probability.probability_above in
      let model = if is_below comparator then complement above else above in
      let yes_price = market_yes_price input in
      let no_price = or_else (market_no_price input) (complement yes_price) in
      let cost = N.div (N.add input.fees_bps input.slippage_bps) (N.dec 10_000 0) in
      record (unvalued input probability.reject_reasons) {
        model_probability_yes = model;
        edge_yes = edge_between model yes_price cost;
        edge_no = edge_between (Option.map (λ p. N.sub (N.dec 1 0) p) model) no_price cost;
        fair_yes_price = model;
        fair_no_price = complement model;
        confidence = confidence_of probability;
        assumptions = probability.assumptions;
        warnings = probability.warnings;
      }

  abbrev pub eligibility_of : FairValueInput F → FairValueMarketEligibility F
  eligibility_of input = evaluate_market_eligibility language input.market (record {
    max_spread = some input.max_spread;
    min_liquidity_status = some input.min_liquidity_status;
    now = some input.now;
  })

  -- The evaluation of a market that is rejected for these reasons.
  unfoldable pub rejected_evaluation :
      FairValueInput F → (reasons : List String) (otherwise : String) → FairValueEvaluation F
  unfolding marker_from_snapshot unvalued
  rejected_evaluation input reasons otherwise =
      let snapshot = unvalued input reasons in
      record {
        snapshot = snapshot;
        marker =
            marker_from_snapshot snapshot input FairValueSignalSide.rejected
              (get_or (first? reasons) otherwise);
        eligibility = eligibility_of input;
      }

  -- The evaluation of an eligible market with these terms.
  unfoldable pub valued_evaluation :
      FairValueInput F → (threshold_price : F) → FairValueComparator → FairValueEvaluation F
  unfolding marker_from_snapshot marker_reason valued_snapshot side_from_edges lookback_candles
  valued_evaluation input threshold_price comparator =
      let probability = estimate_terminal_above_probability language (record {
        current_price = input.current_price;
        threshold_price = threshold_price;
        candles = lookback_candles input.candles input.volatility_lookback_candles;
        horizon_seconds = input.horizon_seconds;
        now = some input.now;
      }) in
      let snapshot = valued_snapshot input comparator probability in
      let side =
        side_from_edges probability.reject_reasons snapshot.edge_yes snapshot.edge_no
          (N.div input.min_edge_bps (N.dec 10_000 0)) snapshot.confidence input.min_confidence in
      record {
        snapshot = snapshot;
        marker = marker_from_snapshot snapshot input side (marker_reason snapshot side);
        eligibility = eligibility_of input;
      }

  unfoldable pub evaluate_fair_value_market : FairValueInput F → FairValueEvaluation F
  unfolding rejected_evaluation valued_evaluation
  evaluate_fair_value_market input =
      let eligibility = eligibility_of input in
      let omitted =
        rejected_evaluation input
          ("Eligibility extraction unexpectedly omitted threshold or comparator." ∷ [])
          "Rejected by fair value engine." in
      let valued : FairValueEvaluation F = elim eligibility.extracted.threshold_price [
        | none ↦ omitted
        | some threshold ↦ elim eligibility.extracted.comparator [
          | none ↦ omitted
          | some comparator ↦ valued_evaluation input threshold comparator
        ]
      ] in
      if eligibility.eligible
      then valued
      else rejected_evaluation input eligibility.reject_reasons "Rejected by eligibility gate."
