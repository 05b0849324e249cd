-- ===== src/FairValue/Probability/Bounds.antt =====
-- The bounds of the probability.
use event_probability_termin.Base.{
  ℕ, ◌≡◌, inl, inr, some, true, false, arith, length, Option-cases, Bool-cases,
}
use event_probability_termin.Base.Number.{Number, IsNumber, IsOrdered}
use event_probability_termin.FairValue.{Language}
use event_probability_termin.FairValue.Probability.{
  TerminalProbabilityInput, empty_result, valued, seen_candles, log_returns, sample_variance,
  median_interval_seconds, standard_normal_cdf, clamp, round, estimate_terminal_above_probability,
}

module _ {F : Type 0} ⦃N : Number F⦄ (laws : IsOrdered F) (language : Language F) where
  open laws use {
    le_number, dec_le, largest_ge, smallest_le, le_smallest, to_fixed_mono, to_fixed_integer,
  }

  -- A number between the ends of the unit interval.
  abbrev pub IsUnit : F → Type 0
  IsUnit p = (N.le (N.dec 0 0) p ≡ true) × (N.le p (N.dec 1 0) ≡ true)

  -- The volatility per second that the candles give.
  abbrev pub volatility_of : TerminalProbabilityInput F → F
  volatility_of input =
      let candles = seen_candles input.now input.candles in
      N.sqrt
        (N.div (sample_variance (log_returns language candles)) (median_interval_seconds candles))

  -- The probability that a price ends above the threshold, before it is cut and rounded.
  abbrev pub tail_probability : TerminalProbabilityInput F → (price volatility : F) → F
  tail_probability input price volatility =
      let scaled = N.mul volatility (N.sqrt input.horizon_seconds) in
      N.sub (N.dec 1 0) (
        standard_normal_cdf language
          (N.div (language.log (N.div input.threshold_price price)) scaled))

  -- Unless the volatility is zero, the probability in the tail is a number.
  abbrev pub TailIsNumber : TerminalProbabilityInput F → Type 0
  TailIsNumber input =
      (price : F)
      → input.current_price ≡ some price
      → N.eq (volatility_of input) (N.dec 0 0) ≡ false
      → IsNumber (tail_probability input price (volatility_of input))

  zero-le-one : N.le (N.dec 0 0) (N.dec 1 0) ≡ true
  zero-le-one = dec_le 0 1 0 (omega arith)

  clamp-IsUnit : (v : F) → IsNumber v → IsUnit (round (clamp v (N.dec 0 0) (N.dec 1 0)))
  clamp-IsUnit v number =
      let (zero, one) = le_number _ _ zero-le-one in
      let above = (largest_ge (N.dec 0 0) v zero number).0 in
      let cut = N.largest (N.dec 0 0) v in
      let below = (smallest_le (N.dec 1 0) cut one (le_number _ _ above).1).0 in
      (
        rw (to_fixed_integer 6 (omega arith) 0) at (
            to_fixed_mono 6 (omega arith) _ _
              (le_smallest (N.dec 1 0) cut (N.dec 0 0) zero-le-one above)),
        rw (to_fixed_integer 6 (omega arith) 1) at (to_fixed_mono 6 (omega arith) _ _ below),
      )

  valued-IsUnit :
      (input : TerminalProbabilityInput F) (price volatility : F) (count : ℕ) (p : F)
      → (N.eq volatility (N.dec 0 0) ≡ false → IsNumber (tail_probability input price volatility))
      → (valued language input price volatility count).probability_above ≡ some p
      → IsUnit p
  unfolding valued
  valued-IsUnit input price volatility count p number h =
      let zero_unit : IsUnit (N.dec 0 0) = ((le_number _ _ zero-le-one).0, zero-le-one) in
      let one_unit : IsUnit (N.dec 1 0) = (zero-le-one, (le_number _ _ zero-le-one).1) in
      elim (Bool-cases (N.eq volatility (N.dec 0 0))) [
        | inl e ↦ ground (arith, zero_unit, one_unit)
        | inr e ↦ ground (arith, clamp-IsUnit _ (number e))
      ]

  -- With the laws of numbers, and where the probability in the tail is a number unless the
  -- volatility is zero: a probability that is estimated lies between 0 and 1.
  pub estimate-IsUnit :
      (input : TerminalProbabilityInput F) (p : F)
      → TailIsNumber input
      → (estimate_terminal_above_probability language input).probability_above ≡ some p
      → IsUnit p
  unfolding estimate_terminal_above_probability empty_result
  estimate-IsUnit input p number h =
      let count = length (log_returns language (seen_candles input.now input.candles)) in
      elim (Option-cases input.current_price) [
        | inl e ↦ ground (arith)
        | inr (price, e) ↦
            ground (arith, valued-IsUnit input price (volatility_of input) count p (number price e))
      ]
