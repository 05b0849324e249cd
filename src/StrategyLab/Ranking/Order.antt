-- ===== src/StrategyLab/Ranking/Order.antt =====
-- The order of a ranking, and what keeps a parameter set out of its candidates.
use event_probability_termin.Base.{
  ℕ, suc, ◌+◌, ◌≤◌, ◌≡◌, refl, ap, ◌∙◌, true, false, not, Option, none, some, List, [], ◌∷◌, ◌++◌,
  map, arith, get_or, length, length-map, length-take, length-sort, filter, All, All-take,
  filter-All, sort-All, Bool-cases, Option-cases, inl, inr, is_empty, is_none, only_if, sort, Bool,
  insert_sorted, IsSortedBy, sort-IsSortedBy, unique-empty, has_text-append,
}
use event_probability_termin.Base.Number.{Number}
use event_probability_termin.StrategyLab.{StrategyParameterSet}
use event_probability_termin.EventReplay.Metrics.{ReplayMetrics}
use event_probability_termin.StrategyLab.Ranking.{
  ParameterSweepResult, WalkForwardResult, is_high, count_below, has_negative_pnl,
  walk_forward_reasons, metric_reasons, walk_forward_of, assessed, rejection_reasons_for_result,
  ranked_from, scores_above, rank_strategy_parameter_results,
}

-- The numbers from `n` + 1 on, one for each item.
abbrev pub counted_from {ℓ} : {A : Type ℓ} → ℕ → List A → List ℕ
counted_from n [] = []
counted_from n (x ∷ xs) = suc n ∷ counted_from (suc n) xs

module _ {F : Type 0} ⦃N : Number F⦄ where
  ranks_lem :
      (n : ℕ) (rs : List (ParameterSweepResult F))
      → map (λ r. r.rank) (ranked_from n rs) ≡ counted_from n rs
  ranks_lem n [] = refl
  ranks_lem n (r ∷ rs) = ap (λ l. suc n ∷ l) (ranks_lem (suc n) rs)

  length-ranked :
      (n : ℕ) (rs : List (ParameterSweepResult F)) → length (ranked_from n rs) ≡ length rs
  length-ranked n [] = refl
  length-ranked n (r ∷ rs) = ap suc (length-ranked (suc n) rs)

  ranked-IsSortedBy :
      (n : ℕ) (rs : List (ParameterSweepResult F))
      → IsSortedBy scores_above rs
      → IsSortedBy scores_above (ranked_from n rs)
  ranked-IsSortedBy n [] h = tt
  ranked-IsSortedBy n (r ∷ []) h = (tt, tt)
  ranked-IsSortedBy n (r ∷ s ∷ rs) (p, h) = (p, ranked-IsSortedBy (suc n) (s ∷ rs) h)

  counted_of_length :
      (n : ℕ) (rs ss : List (ParameterSweepResult F))
      → length rs ≡ length ss
      → counted_from n rs ≡ counted_from n ss
  counted_of_length n [] [] h = refl
  counted_of_length n [] (s ∷ ss) h = absurd (omega arith)
  counted_of_length n (r ∷ rs) [] h = absurd (omega arith)
  counted_of_length n (r ∷ rs) (s ∷ ss) h =
      ap (λ l. suc n ∷ l) (counted_of_length (suc n) rs ss (omega arith))

  split_lem :
      (rs : List (ParameterSweepResult F))
      → length (filter (λ r. is_empty r.rejection_reasons) rs)
          + length (filter (λ r. not (is_empty r.rejection_reasons)) rs)
        ≡ length rs
  split_lem [] = refl
  split_lem (r ∷ rs) = ground (arith, split_lem rs)

  held_by_insert :
      (p : ParameterSweepResult F → Bool) (r : ParameterSweepResult F)
      (rs : List (ParameterSweepResult F))
      → length (filter p (insert_sorted scores_above r rs)) ≡ length (filter p (r ∷ rs))
  held_by_insert p r [] = refl
  held_by_insert p r (q ∷ rs) = ground (arith, held_by_insert p r rs)

  held_by_sort :
      (p : ParameterSweepResult F → Bool) (rs : List (ParameterSweepResult F))
      → length (filter p (sort scores_above rs)) ≡ length (filter p rs)
  held_by_sort p [] = refl
  held_by_sort p (r ∷ rs) =
      let rest = held_by_sort p rs in
      held_by_insert p r (sort scores_above rs) ∙ ground (arith, rest)

  -- A test of what a result was run with and what came out.
  module _ (p : StrategyParameterSet F → ReplayMetrics F → F → Bool) where
    abbrev pub is_held : ParameterSweepResult F → Bool
    is_held r = p r.parameter_set r.metrics r.score

    held_by_ranks :
        (n : ℕ) (rs : List (ParameterSweepResult F))
        → length (filter is_held (ranked_from n rs)) ≡ length (filter is_held rs)
    held_by_ranks n [] = refl
    held_by_ranks n (r ∷ rs) = ground (arith, held_by_ranks (suc n) rs)

    held_by_assessed :
        (walk_forward : List (WalkForwardResult F)) (rs : List (ParameterSweepResult F))
        → length (filter is_held (map (assessed walk_forward) rs)) ≡ length (filter is_held rs)
    unfolding assessed
    held_by_assessed walk_forward [] = refl
    held_by_assessed walk_forward (r ∷ rs) = ground (arith, held_by_assessed walk_forward rs)

  -- Where `<` is asymmetric: a ranking is numbered from 1 on, and no result has a greater score than
  -- the one in front of it; as many results of each parameter set, metrics and score are in it as
  -- were given; and the candidates are at most as many as the limit, five where none is set.
  pub ranking-IsSortedBy :
      ((x y : F) → N.lt x y ≡ true → N.lt y x ≡ false)
      → (results : List (ParameterSweepResult F)) (walk_forward : List (WalkForwardResult F))
        (limit : Option ℕ)
      → let ranked = rank_strategy_parameter_results results walk_forward limit in
        ((p : StrategyParameterSet F → ReplayMetrics F → F → Bool)
          → length (filter (λ r. p r.parameter_set r.metrics r.score) ranked.parameter_results)
            ≡ length (filter (λ r. p r.parameter_set r.metrics r.score) results))
        × (map (λ r. r.rank) ranked.parameter_results ≡ counted_from 0 results)
        × IsSortedBy (λ r q. N.lt q.score r.score) ranked.parameter_results
        × (length ranked.top_candidates ≤ get_or limit 5)
  unfolding rank_strategy_parameter_results
  ranking-IsSortedBy asymm results walk_forward limit =
      let assessed_results = map (assessed walk_forward) results in
      let sorted = sort scores_above assessed_results in
      let count : length sorted ≡ length results =
        length-sort scores_above assessed_results ∙ length-map (assessed walk_forward) results in
      (
        (λ p.
            held_by_ranks p 0 sorted
            ∙ held_by_sort (is_held p) assessed_results
            ∙ held_by_assessed p walk_forward results),
        ranks_lem 0 sorted ∙ counted_of_length 0 sorted results count,
        ranked-IsSortedBy 0 sorted
            (sort-IsSortedBy scores_above (λ a b. asymm b.score a.score) assessed_results),
        ground (
          arith,
          length-take (get_or limit 5)
              (filter (λ r. is_empty r.rejection_reasons) (ranked_from 0 sorted)),
        ),
      )

  -- The out-of-sample windows, if there are any, speak for the parameter set.
  abbrev pub Confirms : Option (WalkForwardResult F) → Type 0
  Confirms none = Unit
  Confirms (some w) =
      (is_high w.overfit_risk ≡ false)
      × (N.lt w.stability.consistency_score (N.dec 5 1) ≡ false)
      × (has_negative_pnl w.aggregate_test_metrics ≡ false)

  -- No reason stands against the result: it is research, it has a win rate, enough actionable
  -- signals, no theoretical loss and no high risk of overfitting.
  abbrev pub IsSound : List (WalkForwardResult F) → ParameterSweepResult F → Type 0
  IsSound walk_forward r =
      (r.is_research_only ≡ true)
      × (is_none r.metrics.win_rate ≡ false)
      × (count_below r.metrics.actionable_count r.parameter_set.min_sample_count ≡ false)
      × (has_negative_pnl r.metrics ≡ false)
      × (is_high r.overfit_risk ≡ false)
      × Confirms (walk_forward_of walk_forward r.parameter_set.id)

  reasons_lem :
      (walk_forward : List (WalkForwardResult F)) (r : ParameterSweepResult F)
      → (assessed walk_forward r).rejection_reasons ≡ []
      → IsSound walk_forward (assessed walk_forward r)
  unfolding assessed rejection_reasons_for_result
  reasons_lem walk_forward r h =
      let found = walk_forward_of walk_forward r.parameter_set.id in
      let tail = metric_reasons r ++ walk_forward_reasons found in
      let research = only_if (not r.is_research_only) "NOT_RESEARCH_ONLY" in
      let nothing = unique-empty (r.rejection_reasons ++ (research ++ tail)) h in
      let whole = has_text-append r.rejection_reasons (research ++ tail) in
      let own = has_text-append research tail in
      let last = has_text-append (metric_reasons r) (walk_forward_reasons found) in
      elim (Option-cases found) [
        | inl none_found ↦ ground (arith, nothing, whole, own, last, none_found)
        | inr (w, is_w) ↦ ground (arith, nothing, whole, own, last, is_w)
      ]

  -- A result of the ranking that no reason stands against is sound.
  abbrev Passes : List (WalkForwardResult F) → ParameterSweepResult F → Type 0
  Passes walk_forward r = is_empty r.rejection_reasons ≡ true → IsSound walk_forward r

  assessed-Passes :
      (walk_forward : List (WalkForwardResult F)) (rs : List (ParameterSweepResult F))
      → All (Passes walk_forward) (map (assessed walk_forward) rs)
  assessed-Passes walk_forward [] = tt
  assessed-Passes walk_forward (r ∷ rs) =
      ((λ h. reasons_lem walk_forward r (ground arith)), assessed-Passes walk_forward rs)

  ranked-Passes :
      (walk_forward : List (WalkForwardResult F)) (n : ℕ) (rs : List (ParameterSweepResult F))
      → All (Passes walk_forward) rs
      → All (Passes walk_forward) (ranked_from n rs)
  ranked-Passes walk_forward n [] h = tt
  ranked-Passes walk_forward n (r ∷ rs) (p, h) = (p, ranked-Passes walk_forward (suc n) rs h)

  passing :
      (walk_forward : List (WalkForwardResult F)) (rs : List (ParameterSweepResult F))
      → All (Passes walk_forward) rs
      → All (IsSound walk_forward) (filter (λ r. is_empty r.rejection_reasons) rs)
  passing walk_forward [] h = tt
  passing walk_forward (r ∷ rs) (p, h) =
      let rest = passing walk_forward rs h in
      elim (Bool-cases (is_empty r.rejection_reasons)) [
        | inl e ↦ rw e (p e, rest)
        | inr e ↦ rw e rest
      ]

  -- Every candidate of a ranking is a result for research with a win rate, as many actionable signals
  -- as its parameter set asks for, no theoretical loss and no high risk of overfitting; and if the
  -- walk-forward validation has tried its parameter set, then with no high risk, a consistency of at
  -- least one half, and no out-of-sample loss. Every rejected result has a reason.
  pub top_candidates-AreSound :
      (results : List (ParameterSweepResult F)) (walk_forward : List (WalkForwardResult F))
      (limit : Option ℕ)
      → let ranked = rank_strategy_parameter_results results walk_forward limit in
        All (IsSound walk_forward) ranked.top_candidates
        × All (λ r. not (is_empty r.rejection_reasons) ≡ true) ranked.rejected_parameter_sets
        × (length (filter (λ r. is_empty r.rejection_reasons) ranked.parameter_results)
              + length ranked.rejected_parameter_sets
            ≡ length ranked.parameter_results)
  unfolding rank_strategy_parameter_results
  top_candidates-AreSound results walk_forward limit =
      let assessed_results = map (assessed walk_forward) results in
      let ranked = ranked_from 0 (sort scores_above assessed_results) in
      let facts = ranked-Passes walk_forward 0 (sort scores_above assessed_results) (
        sort-All (Passes walk_forward) scores_above assessed_results
          (assessed-Passes walk_forward results)) in
      (
        All-take (IsSound walk_forward) (get_or limit 5) _ (passing walk_forward ranked facts),
        filter-All (λ r. not (is_empty r.rejection_reasons)) ranked,
        split_lem ranked,
      )
