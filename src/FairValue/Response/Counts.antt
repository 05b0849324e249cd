-- ===== src/FairValue/Response/Counts.antt =====
-- What a response says of its markets.
use event_probability_termin.Base.{
  ◌+◌, ◌≡◌, refl, ap, ◌∙◌, List, [], ◌∷◌, map, filter, length, length-map, arith, Bool-cases, inl,
  inr,
}
use event_probability_termin.Base.Number.{Number}
use event_probability_termin.FairValue.{BoundEventMarket, Language}
use event_probability_termin.FairValue.Edge.{FairValueEvaluation, evaluate_fair_value_market}
use event_probability_termin.FairValue.Response.{
  BuildFairValueSignalResponseInput, input_for, is_accepted, rejected_of,
  build_fair_value_signal_response,
}

module _ {F : Type 0} ⦃N : Number F⦄ (language : Language F)
    (input : BuildFairValueSignalResponseInput F) where
  abbrev evaluations : List (BoundEventMarket F) → List (FairValueEvaluation F)
  evaluations markets = map (λ m. evaluate_fair_value_market language (input_for input m)) markets

  split_lem :
      (markets : List (BoundEventMarket F))
      → length (filter is_accepted (evaluations markets))
          + length (rejected_of language input markets)
        ≡ length markets
  split_lem [] = refl
  split_lem (m ∷ ms) =
      let rest = split_lem ms in
      let e = evaluate_fair_value_market language (input_for input m) in
      elim (Bool-cases (is_accepted e)) [
        | inl accepted ↦ rw accepted (omega (arith, rest))
        | inr rejected ↦ rw rejected (omega (arith, rest))
      ]

  -- Every market of a response has a marker, and is either among the snapshots or among the rejected
  -- markets.
  pub response-AccountsForAll :
      let response = build_fair_value_signal_response language input in
      (length response.markers ≡ length input.markets)
      × (length response.snapshots + length response.rejected_markets ≡ length input.markets)
  unfolding build_fair_value_signal_response
  response-AccountsForAll =
      let all = evaluations input.markets in
      (
        length-map (λ (e : FairValueEvaluation F). e.marker) all ∙ length-map _ input.markets,
        ap (λ n. n + length (rejected_of language input input.markets))
              (length-map (λ (e : FairValueEvaluation F). e.snapshot) (filter is_accepted all))
            ∙ split_lem input.markets,
      )
