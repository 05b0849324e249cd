-- ===== src/FairValue/Probability/Causal.antt =====
-- What the probability depends on, and when there is one.
use event_probability_termin.Base.{
  filter, ℕ, ◌≡◌, ◌↔◌, ap, none, some, false, List, arith, is_empty, leb,
}
use event_probability_termin.Base.Number.{Number}
use event_probability_termin.Market.{Candle}
use event_probability_termin.FairValue.{Language}
use event_probability_termin.FairValue.Probability.{
  TerminalProbabilityInput, empty_result, valued, seen_candles, estimate_by,
  estimate_terminal_above_probability,
}

module _ {F : Type 0} ⦃N : Number F⦄ (language : Language F) where
  -- The estimate at an instant depends only on the candles whose timestamp is not later: two inputs
  -- that differ in later ones have the same estimate. And there is a probability exactly where no
  -- reason is given against one.
  pub estimate-blind :
      (input : TerminalProbabilityInput F) (now : ℕ) (candles : List (Candle F))
      → input.now ≡ some now
      → filter (λ c. leb c.timestamp now) candles ≡ filter (λ c. leb c.timestamp now) input.candles
      → let result = estimate_terminal_above_probability language input in
        (estimate_terminal_above_probability language (record input { candles = candles }) ≡ result)
        × ((result.probability_above ≡ none) ↔ (is_empty result.reject_reasons ≡ false))
  unfolding estimate_terminal_above_probability empty_result valued
  estimate-blind input now candles at same =
      let seen : seen_candles input.now candles ≡ seen_candles input.now input.candles =
        rw at same in
      (ap (estimate_by language input) seen, ground arith)
