-- ===== src/StrategyLab/Grid/Bounds.antt =====
-- What the parameter grid holds, and how many.
use Prim.Native.Nat.{min}
use event_probability_termin.Base.{
  length-take, ℕ, ◌*◌, ◌≤◌, ◌<◌, ◌≡◌, refl, ap, ◌∙◌, Option, none, some, List, [], ◌∷◌, arith,
  length, take, length-append,
}
use event_probability_termin.Base.Number.{Number, IsOrdered}
use event_probability_termin.StrategyLab.{StrategyParameterSet}
use event_probability_termin.StrategyLab.Grid.Loops.{for_each-Appends, flat_map, push-Appends}
use event_probability_termin.StrategyLab.Grid.{
  Axes, ParameterGridOptions, requested_count, parameter_set, grid_loops, sanitize_options,
  normalize_max_combinations, build_fair_value_v1_parameter_grid,
}

length-flat_map :
    {A B : Type 0} (f : A → List B) (n : ℕ) (xs : List A)
    → ((x : A) → length (f x) ≡ n)
    → length (flat_map f xs) ≡ length xs * n
length-flat_map f n [] h = omega arith
length-flat_map f n (x ∷ xs) h =
    length-append (f x) (flat_map f xs) ∙ grind (arith, h x, length-flat_map f n xs h)

module _ {F : Type 0} ⦃N : Number F⦄ where
  -- Every choice of one value from each list, in the order of the loops.
  unfoldable pub combinations : Axes F → List (StrategyParameterSet F)
  combinations a =
      flat_map
        (λ interval.
          flat_map
            (λ edge.
              flat_map
                (λ spread.
                  flat_map
                    (λ lookback.
                      flat_map
                        (λ confidence.
                          flat_map
                            (λ fee.
                              flat_map
                                (λ slippage.
                                  parameter_set a.min_sample_count interval edge spread lookback
                                    confidence fee slippage
                                  ∷ [])
                                a.slippages)
                            a.fees)
                        a.confidences)
                    a.lookbacks)
                a.spreads)
            a.edges)
        a.intervals

  length-combinations : (a : Axes F) → length (combinations a) ≡ requested_count a
  unfolding combinations
  length-combinations a =
      length-flat_map _ _ a.intervals (λ i. length-flat_map _ _ a.edges (λ e.
        length-flat_map _ _ a.spreads (λ s. length-flat_map _ _ a.lookbacks (λ l.
          length-flat_map _ _ a.confidences (λ c. length-flat_map _ _ a.fees (λ f.
            length-flat_map (λ p. parameter_set a.min_sample_count i e s l c f p ∷ []) 1 a.slippages
              (λ p. refl)))))))
      ∙ omega arith

  grid_loops_lem :
      (cap : ℕ) (a : Axes F) → 0 < cap → (grid_loops cap a).0 ≡ take cap (combinations a)
  unfolding grid_loops combinations
  grid_loops_lem cap a h =
      ap (λ r. r.0)
        (for_each-Appends cap _ _
          (λ i.
            for_each-Appends cap _ _
              (λ e.
                for_each-Appends cap _ _
                  (λ s.
                    for_each-Appends cap _ _
                      (λ l.
                        for_each-Appends cap _ _
                          (λ c.
                            for_each-Appends cap _ _
                              (λ f.
                                for_each-Appends cap _ _
                                  (λ p.
                                    push-Appends cap
                                      (parameter_set a.min_sample_count i e s l c f p))
                                  a.slippages)
                              a.fees)
                          a.confidences)
                      a.lookbacks)
                  a.spreads)
              a.edges)
          a.intervals [] h)

  normalize_max_combinations_bounds :
      IsOrdered F
      → (value : Option F)
      → let cap = (normalize_max_combinations value).0 in (0 < cap) × (cap ≤ 100)
  unfolding normalize_max_combinations
  normalize_max_combinations_bounds laws none = omega arith
  normalize_max_combinations_bounds laws (some value) = ground (
    arith,
    laws.finite_number value,
    laws.lt-not-le value (N.dec 1 0),
    laws.dec_le 1 1 0 (omega arith),
    laws.floor_ge 1 value (omega arith),
  )

  -- The grid holds, in the order of the loops, the combinations of the sanitized values, cut at the
  -- cap, which lies between 1 and 100; so it has as many sets as were requested, or the cap if that
  -- is less.
  pub build_grid_lem :
      IsOrdered F
      → (options : ParameterGridOptions F)
      → let built = build_fair_value_v1_parameter_grid options in
        (built.parameter_grid
          ≡ take built.max_combinations (combinations (sanitize_options options)))
        × (length built.parameter_grid
            ≡ min built.max_combinations built.requested_combination_count)
        × (1 ≤ built.max_combinations)
        × (built.max_combinations ≤ 100)
  unfolding build_fair_value_v1_parameter_grid
  build_grid_lem laws options =
      let axes = sanitize_options options in
      let cap = (normalize_max_combinations options.max_combinations).0 in
      let (low, high) = normalize_max_combinations_bounds laws options.max_combinations in
      let held = grid_loops_lem cap axes low in
      (
        held,
        ap length held
            ∙ length-take cap (combinations axes)
            ∙ ap (min cap) (length-combinations axes),
        low,
        high,
      )
