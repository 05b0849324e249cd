-- ===== src/ShortWindow/Signal/Confidence.antt =====
-- The bounds of a signal's confidence.
use event_probability_termin.Base.{ℕ, ◌≡◌, ◌≢◌, true, arith}
use event_probability_termin.Base.Number.{Number, IsNumber, IsOrdered}
use event_probability_termin.ShortWindow.{
  ShortWindowEvent, ShortWindowSignalSide, ShortWindowRuleConfidence,
}
use event_probability_termin.ShortWindow.Signal.{
  confidence_cap_for_rule, round_confidence, confidence_ratio, confidence_of,
  generate_short_window_signal,
}
use event_probability_termin.ShortWindow.Signal.Features.{
  MarketState, FeaturePack, build_features, directional_score,
}

module _ {F : Type 0} ⦃N : Number F⦄ (laws : IsOrdered F) where
  open laws use {
    le_trans, le_number, dec_le, largest_ge, largest_le, smallest_le, le_smallest, to_fixed_mono,
    to_fixed_integer, to_fixed_cents, dec_zero, dec_one,
  }

  zero-le-one : N.le (N.dec 0 0) (N.dec 1 0) ≡ true
  zero-le-one = dec_le 0 1 0 (omega arith)

  -- A number between the ends of the unit interval.
  abbrev pub IsUnit : F → Type 0
  IsUnit v = (N.le (N.dec 0 0) v ≡ true) × (N.le v (N.dec 1 0) ≡ true)

  -- Cutting and rounding leave a number in the unit interval, and below a limit that rounding keeps.
  round_confidence-IsUnit : (v : F) → IsNumber v → IsUnit (round_confidence v)
  unfolding round_confidence
  round_confidence-IsUnit v h =
      let one = (le_number _ _ zero-le-one).1 in
      let zero = (le_number _ _ zero-le-one).0 in
      let (below_one, below_v) = smallest_le (N.dec 1 0) v one h in
      let cut = N.smallest (N.dec 1 0) v in
      let (above_zero, _) = largest_ge (N.dec 0 0) cut zero (le_number _ _ below_one).0 in
      let under = largest_le (N.dec 0 0) cut (N.dec 1 0) zero-le-one below_one in
      (
        rw (to_fixed_integer 4 (omega arith) 0) at (to_fixed_mono 4 (omega arith) _ _ above_zero),
        rw (dec_one, to_fixed_cents 100, ← dec_one) at (to_fixed_mono 4 (omega arith) _ _ under),
      )

  cap_bounds :
      (c : ShortWindowRuleConfidence)
      → (N.le (N.dec 0 0) (confidence_cap_for_rule c) ≡ true)
        × (N.to_fixed 4 (confidence_cap_for_rule c) ≡ confidence_cap_for_rule c)
  unfolding confidence_cap_for_rule
  cap_bounds ShortWindowRuleConfidence.high =
      (rw dec_zero (dec_le 0 88 2 (omega arith)), to_fixed_cents 88)
  cap_bounds ShortWindowRuleConfidence.medium =
      (rw dec_zero (dec_le 0 72 2 (omega arith)), to_fixed_cents 72)
  cap_bounds ShortWindowRuleConfidence.low =
      (rw dec_zero (dec_le 0 58 2 (omega arith)), to_fixed_cents 58)
  cap_bounds ShortWindowRuleConfidence.unknown =
      (dec_le 0 0 0 (omega arith), to_fixed_integer 4 (omega arith) 0)

  -- What is below the cap stays below it.
  round_confidence-le_cap :
      (c : ShortWindowRuleConfidence) (v : F)
      → N.le v (confidence_cap_for_rule c) ≡ true
      → N.le (round_confidence v) (confidence_cap_for_rule c) ≡ true
  unfolding round_confidence
  round_confidence-le_cap c v h =
      let (nonneg, kept) = cap_bounds c in
      let one = (le_number _ _ zero-le-one).1 in
      let below = smallest_le (N.dec 1 0) v one (le_number _ _ h).0 in
      let cut = N.smallest (N.dec 1 0) v in
      let under = largest_le (N.dec 0 0) cut _ nonneg (le_trans _ _ _ below.1 h) in
      rw kept at (to_fixed_mono 4 (omega arith) _ _ under)

  module _ (event : ShortWindowEvent F) (score : F) (features : FeaturePack F)
      (number : IsNumber (confidence_ratio score features)) where
    confidence_of_bounds :
        IsUnit (confidence_of event score features)
        × (N.le
              (confidence_of event score features)
              (confidence_cap_for_rule event.rule.rule_confidence)
            ≡ true)
    unfolding confidence_of
    confidence_of_bounds =
        let c = event.rule.rule_confidence in
        let zero = (le_number _ _ zero-le-one).0 in
        let above = largest_ge (N.dec 0 0) (confidence_ratio score features) zero number in
        let cap_number = (le_number _ _ (cap_bounds c).0).1 in
        let cut = N.largest (N.dec 0 0) (confidence_ratio score features) in
        let below =
          smallest_le (confidence_cap_for_rule c) cut cap_number (le_number _ _ above.0).1 in
        (round_confidence-IsUnit _ (le_number _ _ below.0).0, round_confidence-le_cap c _ below.0)

  module _ (event : ShortWindowEvent F) (state : MarketState F) where
    abbrev pub RatioIsNumber : Type 0
    RatioIsNumber =
        let features = build_features event state in
        IsNumber (confidence_ratio (directional_score event features) features)

    -- With the laws of numbers, and unless the confidence quotient is not a number, the confidence of
    -- every signal, rejected and waiting ones included, lies between 0 and 1.
    pub confidence-IsUnit :
        RatioIsNumber → IsUnit (generate_short_window_signal event state).confidence
    unfolding generate_short_window_signal
    confidence-IsUnit number =
        let features = build_features event state in
        let score = directional_score event features in
        let own = (confidence_of_bounds event score features number).0 in
        let own_number = (le_number _ _ own.0).1 in
        let limit = (le_number _ _ (dec_le 28 28 2 (omega arith))).0 in
        let literal =
          λ (n k : ℕ). round_confidence-IsUnit (N.dec n k) (dec_le n n k (omega arith)) in
        let low = smallest_le (confidence_of event score features) (N.dec 28 2) own_number limit in
        ground (
          arith,
          literal 0 0,
          literal 12 2,
          literal 1 1,
          literal 16 2,
          literal 2 1,
          round_confidence-IsUnit _ own_number,
          round_confidence-IsUnit _ (le_number _ _ low.0).0,
        )

    -- With the laws of numbers, and unless the confidence quotient is not a number, a signal that
    -- takes a side has at most the confidence that its rule allows: 0.88, 0.72, 0.58 or 0.
    pub confidence-le_cap :
        RatioIsNumber
        → (generate_short_window_signal event state).side ≢ ShortWindowSignalSide.wait
        → (generate_short_window_signal event state).side ≢ ShortWindowSignalSide.rejected
        → N.le
            (generate_short_window_signal event state).confidence
            (confidence_cap_for_rule event.rule.rule_confidence)
          ≡ true
    unfolding generate_short_window_signal
    confidence-le_cap number sided taken =
        let features = build_features event state in
        let score = directional_score event features in
        let own = (confidence_of_bounds event score features number).1 in
        ground (arith, round_confidence-le_cap event.rule.rule_confidence _ own)
