-- ===== src/ShortWindow/Signal/Closed.antt =====
-- When a signal takes a side, and when it fails closed.
use event_probability_termin.Base.{◌≡◌, ◌↔◌, ◌⊎◌, true, false, arith, is_none, is_empty, get_or}
use event_probability_termin.Base.Number.{Number}
use event_probability_termin.ShortWindow.{
  ShortWindowEvent, ShortWindowEventStatus, ShortWindowSignalSide,
}
use event_probability_termin.ShortWindow.Signal.{
  is_unknown_rule, exceeds, reject_reasons_of, confidence_of, generate_short_window_signal,
}
use event_probability_termin.ShortWindow.Signal.Features.{
  MarketState, FeaturePack, build_features, directional_score,
}

module _ {F : Type 0} ⦃N : Number F⦄ where
  -- Nothing rejects the signal.
  pub record IsAccepted (event : ShortWindowEvent F) (features : FeaturePack F) : Type 0 where
    pub known_rule : is_unknown_rule event.rule ≡ false
    pub has_start : is_none event.start_reference_price ≡ false
    pub has_current : is_none event.current_price ≡ false
    pub fresh : features.is_stale ≡ false
    pub narrow_spread : exceeds features.spread_bps (N.dec 8 0) ≡ false

  IsAccepted-iff :
      (event : ShortWindowEvent F) (features : FeaturePack F)
      → (is_empty (reject_reasons_of event features) ≡ true) ↔ IsAccepted event features
  unfolding reject_reasons_of
  IsAccepted-iff event features = ground arith

  -- What must hold for a side to be taken.
  pub record IsReady (event : ShortWindowEvent F) (state : MarketState F) : Type 0 where
    pub accepted : IsAccepted event (build_features event state)
    pub running :
        (event.status ≡ ShortWindowEventStatus.open_phase)
        ⊎ (event.status ≡ ShortWindowEventStatus.decision_zone)
    pub calm : exceeds (build_features event state).volatility_bps (N.dec 90 0) ≡ false
    pub above_noise :
        N.lt
          (N.abs (directional_score event (build_features event state)))
          (build_features event state).noise_threshold_bps
        ≡ false
    pub confident :
        N.lt
          (confidence_of event
            (directional_score event (build_features event state))
            (build_features event state))
          (get_or state.min_confidence (N.dec 38 2))
        ≡ false

  -- A signal is LONG_UP exactly when nothing rejects it, the window is open or in its decision zone,
  -- volatility is not above the limit, the score is not below the noise threshold, the confidence is
  -- not below the configured minimum, and the score is positive.
  pub long_up_iff :
      (event : ShortWindowEvent F) (state : MarketState F)
      → ((generate_short_window_signal event state).side ≡ ShortWindowSignalSide.long_up) ↔ (
          IsReady event state
          × (N.lt (N.dec 0 0) (directional_score event (build_features event state)) ≡ true))
  unfolding generate_short_window_signal
  long_up_iff event state = ground (arith, IsAccepted-iff event (build_features event state))

  -- A signal is LONG_DOWN exactly under the same conditions with a negative score (and no positive
  -- one, which only matters where the comparison of numbers is not asymmetric).
  pub long_down_iff :
      (event : ShortWindowEvent F) (state : MarketState F)
      → let score = directional_score event (build_features event state) in
        ((generate_short_window_signal event state).side ≡ ShortWindowSignalSide.long_down)
        ↔ (IsReady event state × (N.lt (N.dec 0 0) score ≡ false) × (N.lt score (N.dec 0 0) ≡ true))
  unfolding generate_short_window_signal
  long_down_iff event state = ground (arith, IsAccepted-iff event (build_features event state))

  -- A signal is REJECTED exactly when the rule is unknown, a reference or current price is missing,
  -- the market data is stale, or the spread is above its limit.
  pub rejected_iff :
      (event : ShortWindowEvent F) (state : MarketState F)
      → ((generate_short_window_signal event state).side ≡ ShortWindowSignalSide.rejected)
        ↔ (¬ IsAccepted event (build_features event state))
  unfolding generate_short_window_signal
  rejected_iff event state = ground (arith, IsAccepted-iff event (build_features event state))
