-- ===== src/FairValue/Edge/Sides.antt =====
-- When the valuation of a market leads to a side.
use event_probability_termin.Base.{
  ◌≡◌, refl, ◌⊎◌, ◌↔◌, Option, none, some, Bool, true, false, List, [], ◌∷◌, arith, is_empty,
  String, inl, inr, if◌then◌else◌,
}
use event_probability_termin.Base.Number.{Number}
use event_probability_termin.EventReplay.{FairValueSignalSide, FairValueComparator}
use event_probability_termin.FairValue.{Language}
use event_probability_termin.FairValue.Edge.{
  FairValueInput, FairValueEvaluation, reaches, lacks_confidence, side_from_edges, edge_on_side,
  marker_from_snapshot, unvalued, valued_snapshot, eligibility_of, rejected_evaluation,
  valued_evaluation, evaluate_fair_value_market,
}

-- What holds of both branches, and of each case of two options.
branch :
    {E : Type 0} (P : E → Type 0) (b : Bool) (v w : E)
    → (b ≡ true → P v)
    → (b ≡ false → P w)
    → P (if b then v else w)
branch P true v w h k = h refl
branch P false v w h k = k refl

pick :
    {A B E : Type 0} (P : E → Type 0) (o : Option A) (c : Option B) (d : E) (f : A → B → E)
    → P d
    → ((a : A) (b : B) → P (f a b))
    → P (elim o [ none ↦ d | some a ↦ elim c [ none ↦ d | some b ↦ f a b ] ])
pick P none c d f h k = h
pick P (some a) none d f h k = h
pick P (some a) (some b) d f h k = k a b

module _ {F : Type 0} ⦃N : Number F⦄ (language : Language F) (input : FairValueInput F) where
  -- The least edge, of its basis points.
  abbrev pub min_edge : F
  min_edge = N.div input.min_edge_bps (N.dec 10_000 0)

  -- A market that passed the gate and was valued, with enough confidence.
  abbrev pub IsValued : FairValueEvaluation F → Type 0
  IsValued e =
      (e.eligibility.eligible ≡ true)
      × (is_empty e.snapshot.reject_reasons ≡ true)
      × (lacks_confidence input.min_confidence e.snapshot.confidence ≡ false)

  -- The side of an evaluation is what its gate, its confidence and its edges say.
  abbrev pub FollowsEdges : FairValueEvaluation F → Type 0
  FollowsEdges e =
      ((e.marker.side ≡ FairValueSignalSide.long_yes)
        ↔ (IsValued e × (reaches e.snapshot.edge_yes min_edge ≡ true)))
      × ((e.marker.side ≡ FairValueSignalSide.long_no) ↔ (
          IsValued e
          × (reaches e.snapshot.edge_yes min_edge ≡ false)
          × (reaches e.snapshot.edge_no min_edge ≡ true)))
      × ((e.marker.side ≡ FairValueSignalSide.rejected)
          ↔ ((e.eligibility.eligible ≡ false) ⊎ (is_empty e.snapshot.reject_reasons ≡ false)))
      × (e.marker.edge ≡ edge_on_side e.snapshot e.marker.side)

  side_lem :
      (reasons : List String) (yes_edge no_edge : Option F) (least confidence : F)
      (min_confidence : Option F) (eligible : Bool)
      → eligible ≡ true
      → let side = side_from_edges reasons yes_edge no_edge least confidence min_confidence in
        let valued =
          (eligible ≡ true)
          × (is_empty reasons ≡ true)
          × (lacks_confidence min_confidence confidence ≡ false) in
        ((side ≡ FairValueSignalSide.long_yes) ↔ (valued × (reaches yes_edge least ≡ true)))
        × ((side ≡ FairValueSignalSide.long_no)
            ↔ (valued × (reaches yes_edge least ≡ false) × (reaches no_edge least ≡ true)))
        × ((side ≡ FairValueSignalSide.rejected)
            ↔ ((eligible ≡ false) ⊎ (is_empty reasons ≡ false)))
  unfolding side_from_edges
  side_lem reasons yes_edge no_edge least confidence min_confidence eligible is_eligible =
      ground arith

  valued-FollowsEdges :
      (threshold : F) (comparator : FairValueComparator)
      → (eligibility_of language input).eligible ≡ true
      → FollowsEdges (valued_evaluation language input threshold comparator)
  unfolding valued_evaluation marker_from_snapshot valued_snapshot unvalued
  valued-FollowsEdges threshold comparator eligible =
      let e = valued_evaluation language input threshold comparator in
      let (a, b, c) =
        side_lem e.snapshot.reject_reasons e.snapshot.edge_yes e.snapshot.edge_no min_edge
          e.snapshot.confidence input.min_confidence e.eligibility.eligible eligible in
      (a, b, c, refl)

  rejected-FollowsEdges :
      (reasons : List String) (otherwise : String)
      → ((eligibility_of language input).eligible ≡ false) ⊎ (is_empty reasons ≡ false)
      → FollowsEdges (rejected_evaluation language input reasons otherwise)
  unfolding rejected_evaluation marker_from_snapshot unvalued
  rejected-FollowsEdges reasons otherwise why = ground (arith, why)

  -- The valuation of a market is LONG_YES exactly when the market passed the gate, a probability was
  -- estimated without a reason against it, the confidence suffices and the YES edge reaches the least
  -- edge; LONG_NO exactly when instead only the NO edge does; REJECTED exactly when the gate or the
  -- estimate rejects; and the edge that it shows is the one of its side.
  pub valuation-FollowsEdges : FollowsEdges (evaluate_fair_value_market language input)
  unfolding evaluate_fair_value_market
  valuation-FollowsEdges =
      let gate = eligibility_of language input in
      let omitted =
        rejected-FollowsEdges
          ("Eligibility extraction unexpectedly omitted threshold or comparator." ∷ [])
          "Rejected by fair value engine." (inr refl) in
      branch FollowsEdges gate.eligible _ _
        (λ passes.
          pick FollowsEdges gate.extracted.threshold_price gate.extracted.comparator _ _ omitted
            (λ threshold comparator. valued-FollowsEdges threshold comparator passes))
        (λ fails.
          rejected-FollowsEdges gate.reject_reasons "Rejected by eligibility gate." (inl fails))
