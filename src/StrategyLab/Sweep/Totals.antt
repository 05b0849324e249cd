-- ===== src/StrategyLab/Sweep/Totals.antt =====
-- The counts of several replays together.
use event_probability_termin.Base.{
  ℕ, ◌+◌, ◌≡◌, refl, ◌↔◌, none, List, [], ◌∷◌, arith, All, String, map,
}
use event_probability_termin.Base.Number.{Number}
use event_probability_termin.EventReplay.{ReplayWindow}
use event_probability_termin.EventReplay.Metrics.{ReplaySymbolFilter, ReplayMetrics, ratio}
use event_probability_termin.StrategyLab.Sweep.{
  total, approximate_evaluated_count, aggregate_replay_metrics,
}

module _ {F : Type 0} ⦃N : Number F⦄ where
  -- The counts of one replay hang together: the samples are the wins and losses, each on one of the
  -- two sides, and the actionable signals are the samples and those pending or unresolved.
  abbrev pub IsConsistent : ReplayMetrics F → Type 0
  IsConsistent m =
      (m.sample_count ≡ m.win_count + m.loss_count)
      × (m.sample_count ≡ m.long_yes_count + m.long_no_count)
      × (m.actionable_count ≡ m.sample_count + m.pending_count + m.unresolved_count)

  totals_agree :
      (ms : List (ReplayMetrics F))
      → All IsConsistent ms
      → let sum_of = λ (count : ReplayMetrics F → ℕ). total (map count ms) in
        (sum_of (λ m. m.sample_count) ≡ sum_of (λ m. m.win_count) + sum_of (λ m. m.loss_count))
        × (sum_of (λ m. m.sample_count)
            ≡ sum_of (λ m. m.long_yes_count) + sum_of (λ m. m.long_no_count))
        × (sum_of (λ m. m.actionable_count)
            ≡ sum_of (λ m. m.sample_count)
              + sum_of (λ m. m.pending_count)
              + sum_of (λ m. m.unresolved_count))
        × (sum_of approximate_evaluated_count
            ≡ sum_of (λ m. m.actionable_count)
              + sum_of (λ m. m.rejected_count)
              + sum_of (λ m. m.no_signal_count))
  unfolding approximate_evaluated_count
  totals_agree [] h = (refl, refl, refl, refl)
  totals_agree (m ∷ ms) (p, h) = ground (arith, totals_agree ms h)

  -- Figures put together from consistent ones are consistent, and their rate of coverage is null
  -- exactly where none of them is of any signal.
  pub aggregate-IsConsistent :
      (symbol : ReplaySymbolFilter) (window : ReplayWindow ℕ) (ms : List (ReplayMetrics F))
      (checked_at : ℕ) (warnings : List String)
      → All IsConsistent ms
      → let m = aggregate_replay_metrics symbol window ms checked_at warnings in
        IsConsistent m
        × ((m.win_rate ≡ none) ↔ (m.sample_count ≡ 0))
        × ((m.coverage_rate ≡ none)
            ↔ (m.actionable_count + m.rejected_count + m.no_signal_count ≡ 0))
  unfolding aggregate_replay_metrics ratio
  aggregate-IsConsistent symbol window ms checked_at warnings h =
      let (samples, sides, actionable, all) = totals_agree ms h in
      ((samples, sides, actionable), ground (arith, samples), ground (arith, all))
