-- ===== src/ShortWindow/Signal.antt =====
-- packages/research-signals/src/short-window/signal-engine.ts: the research signal of a window.
-- Features.antt has the inputs that are measured; this file has the decision.
pub mod Features
pub mod Closed
pub mod Confidence
pub mod Unverified
use event_probability_termin.Base.{
  ℕ, Option, none, some, Bool, true, false, not, ◌||◌, List, [], ◌∷◌, ◌++◌, String, if◌then◌else◌,
  get_or, is_none, is_empty, length, only_if, unique,
}
use event_probability_termin.Base.Number.{Number}
use event_probability_termin.Market.{SignalSymbol}
use event_probability_termin.ShortWindow.{
  ShortWindowInterval, ShortWindowRuleType, ShortWindowRuleConfidence, ShortWindowContractRule,
  ShortWindowEvent, ShortWindowEventStatus, ShortWindowSignalSide, EventId,
}
use event_probability_termin.ShortWindow.Window.{round_bps}
use event_probability_termin.ShortWindow.Signal.Features.{
  MarketState, FeaturePack, build_features, bid_of, ask_of, directional_score,
}

pub record ScoreBreakdown (F : Type 0) : Type 0 where
  pub distance_bps : Option F
  pub momentum_bps : Option F
  pub volatility_bps : Option F
  pub candle_body_bps : Option F
  pub spread_bps : Option F
  pub noise_threshold_bps : F
  pub directional_score : F
  pub confidence_cap : F
  pub total : F

pub record ModelInputs (F : Type 0) : Type 0 where
  pub candle_count : ℕ
  pub latest_candle_time : Option ℕ
  pub latest_tick_time : Option (Option ℕ)
  pub latency_ms : Option ℕ
  pub bid : Option F
  pub ask : Option F
  pub spread_bps : Option F
  pub momentum_lookback_candles : ℕ
  pub volatility_lookback_candles : ℕ
  pub rule_confidence : ShortWindowRuleConfidence
  pub settlement_rule_verified : Bool
  pub score_breakdown : ScoreBreakdown F

pub record ShortWindowSignal (F : Type 0) : Type 0 where
  -- `${event.id}:${signalTime}`
  pub id : EventId × ℕ
  pub event_id : EventId
  pub symbol : SignalSymbol
  pub interval : ShortWindowInterval
  pub signal_time : ℕ
  pub side : ShortWindowSignalSide
  pub confidence : F
  pub score : F
  pub current_price : Option F
  pub start_reference_price : Option F
  pub distance_bps : Option F
  pub seconds_remaining : ℕ
  pub reasons : List String
  pub reject_reasons : List String
  pub model_inputs : ModelInputs F
  pub phase : ShortWindowEventStatus

abbrev base_reasons : List String
base_reasons =
    "Research only. Not trading advice." ∷ "Manual action only; no automated execution." ∷ []

-- `ruleConfidence === "unknown" || ruleType === "UNKNOWN_MANUAL_REFERENCE"`
abbrev pub is_unknown_rule : ShortWindowContractRule → Bool
is_unknown_rule rule =
    elim rule.rule_confidence [ ShortWindowRuleConfidence.unknown ↦ true | _ ↦ false ]
    || elim rule.rule_type [ ShortWindowRuleType.unknown_manual_reference ↦ true | _ ↦ false ]

abbrev directional_reasons : ShortWindowSignalSide → List String
directional_reasons ShortWindowSignalSide.long_up =
    "Current price is above the window start reference."
    ∷ "Short-term momentum is positive after spread and volatility checks." ∷ []
directional_reasons _ =
    "Current price is below the window start reference."
    ∷ "Short-term momentum is negative after spread and volatility checks." ∷ []

module _ {F : Type 0} ⦃N : Number F⦄ where
  unfoldable pub confidence_cap_for_rule : ShortWindowRuleConfidence → F
  confidence_cap_for_rule ShortWindowRuleConfidence.high = N.dec 88 2
  confidence_cap_for_rule ShortWindowRuleConfidence.medium = N.dec 72 2
  confidence_cap_for_rule ShortWindowRuleConfidence.low = N.dec 58 2
  confidence_cap_for_rule ShortWindowRuleConfidence.unknown = N.dec 0 0

  unfoldable pub round_confidence : F → F
  round_confidence value = N.to_fixed 4 (N.largest (N.dec 0 0) (N.smallest (N.dec 1 0) value))

  unfoldable pub build_signal :
      ShortWindowEvent F
      → ℕ
      → ShortWindowSignalSide
      → F
      → F
      → List String
      → List String
      → MarketState F
      → FeaturePack F
      → ShortWindowSignal F
  build_signal event signal_time side confidence score reasons reject_reasons state features =
      record {
        id = (event.id, signal_time);
        event_id = event.id;
        symbol = event.symbol;
        interval = event.interval;
        signal_time = signal_time;
        side = side;
        confidence = round_confidence confidence;
        score = round_bps score;
        current_price = event.current_price;
        start_reference_price = event.start_reference_price;
        distance_bps = event.distance_bps;
        seconds_remaining = event.seconds_remaining;
        reasons = unique reasons;
        reject_reasons = unique reject_reasons;
        model_inputs = record {
          candle_count = length state.candles;
          latest_candle_time = features.latest_candle_time;
          latest_tick_time = features.latest_tick_time;
          latency_ms = features.latency_ms;
          bid = bid_of state;
          ask = ask_of state;
          spread_bps = features.spread_bps;
          momentum_lookback_candles = 3;
          volatility_lookback_candles = 8;
          rule_confidence = event.rule.rule_confidence;
          settlement_rule_verified = event.rule.is_verified_rule;
          score_breakdown = record {
            distance_bps = event.distance_bps;
            momentum_bps = features.momentum_bps;
            volatility_bps = features.volatility_bps;
            candle_body_bps = features.candle_body_bps;
            spread_bps = features.spread_bps;
            noise_threshold_bps = features.noise_threshold_bps;
            directional_score = round_bps score;
            confidence_cap = confidence_cap_for_rule event.rule.rule_confidence;
            total = round_bps score;
          };
        };
        phase = event.status;
      }

  -- The value is there, and above the limit.
  abbrev pub exceeds : Option F → F → Bool
  exceeds none limit = false
  exceeds (some value) limit = N.lt limit value

  -- Why the signal fails closed.
  unfoldable pub reject_reasons_of : ShortWindowEvent F → FeaturePack F → List String
  reject_reasons_of event features =
      only_if (is_unknown_rule event.rule) "UNVERIFIED_UNKNOWN_RULE"
      ++ (only_if (is_none event.start_reference_price) "MISSING_START_REFERENCE_PRICE"
          ++ (only_if (is_none event.current_price) "MISSING_CURRENT_PRICE"
              ++ (only_if features.is_stale "STALE_PRICE"
                  ++ only_if (exceeds features.spread_bps (N.dec 8 0)) "SPREAD_TOO_WIDE")))

  -- The quotient that becomes the confidence, before it is cut to the cap of the rule.
  abbrev pub confidence_ratio : F → FeaturePack F → F
  confidence_ratio score features =
      N.div (N.abs score) (N.largest (N.dec 1 0) (N.mul features.noise_threshold_bps (N.dec 3 0)))

  unfoldable pub confidence_of : ShortWindowEvent F → F → FeaturePack F → F
  unfolding round_confidence confidence_cap_for_rule
  confidence_of event score features = round_confidence (
      N.smallest (confidence_cap_for_rule event.rule.rule_confidence)
        (N.largest (N.dec 0 0) (confidence_ratio score features)))

  unfoldable pub side_of_score : F → ShortWindowSignalSide
  side_of_score score =
      if N.lt (N.dec 0 0) score
      then ShortWindowSignalSide.long_up
      else if N.lt score (N.dec 0 0)
      then ShortWindowSignalSide.long_down
      else ShortWindowSignalSide.wait

  unfoldable pub generate_short_window_signal :
      ShortWindowEvent F → MarketState F → ShortWindowSignal F
  unfolding build_signal side_of_score
  generate_short_window_signal event state =
      let features = build_features event state in
      let reject_reasons = reject_reasons_of event features in
      let reasons =
        base_reasons
        ++ only_if (is_unknown_rule event.rule)
            "Settlement rule is unknown, so the signal fails closed." in
      let out =
        λ (side : ShortWindowSignalSide) (confidence score : F) (more rejects : List String).
          build_signal event state.now side confidence score (reasons ++ more) rejects state
            features in
      let zero = N.dec 0 0 in
      let score = directional_score event features in
      let confidence = confidence_of event score features in
      let side = side_of_score score in
      let directional =
        if N.lt (N.abs score) features.noise_threshold_bps
        then out ShortWindowSignalSide.wait (N.smallest confidence (N.dec 28 2)) score
            ("Price and momentum have not cleared the dynamic noise threshold." ∷ [])
            ("BELOW_NOISE_THRESHOLD" ∷ [])
        else if N.lt confidence (get_or state.min_confidence (N.dec 38 2))
        then out ShortWindowSignalSide.wait confidence score
            ("Directional setup exists but confidence is below the configured threshold." ∷ [])
            ("LOW_CONFIDENCE" ∷ [])
        else out side confidence score
            (directional_reasons side
              ++ (if event.rule.is_verified_rule
                  then "Rule template is verified for deterministic mock use."
                  else "Proxy / unverified settlement rule: output is manual decision support only.")
                ∷ [])
            [] in
      let checked =
        if exceeds features.volatility_bps (N.dec 90 0)
        then out ShortWindowSignalSide.wait (N.dec 2 1) zero
            ("Short-term realized volatility is above the risk threshold." ∷ [])
            ("VOLATILITY_TOO_HIGH" ∷ [])
        else directional in
      if not (is_empty reject_reasons)
      then out ShortWindowSignalSide.rejected zero zero [] reject_reasons
      else elim event.status [
        | ShortWindowEventStatus.forming ↦
            out ShortWindowSignalSide.wait (N.dec 12 2) zero
              ("Window is still forming or has insufficient opening data." ∷ [])
              ("WINDOW_FORMING" ∷ [])
        | ShortWindowEventStatus.closed ↦
            out ShortWindowSignalSide.wait (N.dec 1 1) zero ("Window is already closed." ∷ [])
              ("WINDOW_CLOSED" ∷ [])
        | ShortWindowEventStatus.no_entry_zone ↦
            out ShortWindowSignalSide.wait (N.dec 16 2) zero
              ("No-entry zone: the remaining window is too short for a new research signal." ∷ [])
              ("NO_ENTRY_ZONE" ∷ [])
        | _ ↦ checked
      ]
