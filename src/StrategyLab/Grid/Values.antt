-- ===== src/StrategyLab/Grid/Values.antt =====
-- Which values the parameter sets of a grid may have.
use event_probability_termin.Base.{
  ℕ, ◌≡◌, refl, Bool, true, Option, List, [], ◌∷◌, arith, filter, is_empty, get_or, All, All-append,
  All-take, All-map, All-of_filter, filter-All_of, sort-All, Bool-cases, inl, inr, &&-true,
}
use event_probability_termin.Base.Number.{Number, IsOrdered}
use event_probability_termin.Market.{OhlcvInterval}
use event_probability_termin.StrategyLab.{StrategyParameterSet}
use event_probability_termin.StrategyLab.Grid.Loops.{flat_map}
use event_probability_termin.StrategyLab.Grid.Bounds.{combinations, build_grid_lem}
use event_probability_termin.StrategyLab.Grid.{
  ParameterGridOptions, is_allowed, default_intervals, same_interval, distinct_by,
  sanitize_intervals, is_integer_in, accepts_spread, accepts_confidence, passes, round6,
  sanitize_number_list, parameter_set, sanitize_options, normalize_min_sample_count,
  build_fair_value_v1_parameter_grid,
}

distinct_by-All :
    {A : Type 0} (P : A → Type 0) (same : A → A → Bool) (xs : List A)
    → All P xs
    → All P (distinct_by same xs)
distinct_by-All P same [] h = tt
distinct_by-All P same (x ∷ xs) (p, h) =
    (p, filter-All_of P _ (distinct_by same xs) (distinct_by-All P same xs h))

flat_map-All :
    {A B : Type 0} (P : B → Type 0) (Q : A → Type 0) (f : A → List B) (xs : List A)
    → ((x : A) → Q x → All P (f x))
    → All Q xs
    → All P (flat_map f xs)
flat_map-All P Q f [] h qs = tt
flat_map-All P Q f (x ∷ xs) h (q, qs) =
    All-append P (f x) (flat_map f xs) (h x q) (flat_map-All P Q f xs h qs)

sanitize_intervals-All :
    (values : List OhlcvInterval) → All (λ i. is_allowed i ≡ true) (sanitize_intervals values)
unfolding sanitize_intervals
sanitize_intervals-All values =
    let accepted = distinct_by same_interval (filter is_allowed values) in
    let kept =
      distinct_by-All (λ i. is_allowed i ≡ true) same_interval (filter is_allowed values)
        (All-of_filter (λ i. is_allowed i ≡ true) is_allowed values (λ x e. e)) in
    elim (Bool-cases (is_empty accepted)) [ inl e ↦ rw e (refl, (refl, tt)) | inr e ↦ rw e kept ]

module _ {F : Type 0} ⦃N : Number F⦄ where
  sanitize_number_list-All :
      (P : F → Type 0) (accepts : F → Bool) (values : List F)
      → ((v : F) → accepts v ≡ true → P (round6 v))
      → All P (sanitize_number_list accepts values)
  unfolding sanitize_number_list
  sanitize_number_list-All P accepts values h = sort-All P N.lt _ (
      distinct_by-All P N.eq _ (
        All-map P round6 (filter (passes accepts) values) (
          All-of_filter (λ v. P (round6 v)) (passes accepts) values
            (λ v e. h v (&&-true _ _ e).1))))

  -- `low <= x <= high`, for whole numbers `low` and `high`
  abbrev pub IsWithin : ℕ → ℕ → F → Type 0
  IsWithin low high x = (N.le (N.dec low 0) x ≡ true) × (N.le x (N.dec high 0) ≡ true)

  pub record IsInRange (p : StrategyParameterSet F) : Type 0 where
    pub interval : is_allowed p.interval ≡ true
    pub min_edge_bps : IsWithin 0 5000 p.min_edge_bps
    pub max_spread : IsWithin 0 1 p.max_spread
    pub volatility_lookback_candles : IsWithin 10 1000 p.volatility_lookback_candles
    pub min_confidence : IsWithin 0 1 p.min_confidence
    pub fees_bps : IsWithin 0 1000 p.fees_bps
    pub slippage_bps : IsWithin 0 1000 p.slippage_bps
    pub min_sample_count : IsWithin 1 1000 p.min_sample_count

  module _ (laws : IsOrdered F) where
    round6-IsWithin : (low high : ℕ) (v : F) → IsWithin low high v → IsWithin low high (round6 v)
    round6-IsWithin low high v h = (
      rw (laws.to_fixed_integer 6 (omega arith) low) at
          (laws.to_fixed_mono 6 (omega arith) _ _ h.0),
      rw (laws.to_fixed_integer 6 (omega arith) high) at
          (laws.to_fixed_mono 6 (omega arith) _ _ h.1),
    )

    integers-All :
        (low high : ℕ) (values : List F)
        → All (IsWithin low high) (sanitize_number_list (is_integer_in low high) values)
    integers-All low high values =
        sanitize_number_list-All (IsWithin low high) (is_integer_in low high) values
          (λ v e. round6-IsWithin low high v (ground arith))

    spreads-All :
        (values : List F) → All (IsWithin 0 1) (sanitize_number_list accepts_spread values)
    spreads-All values =
        sanitize_number_list-All (IsWithin 0 1) accepts_spread values
          (λ v e. round6-IsWithin 0 1 v (ground (arith, laws.lt_le (N.dec 0 0) v)))

    confidences-All :
        (values : List F) → All (IsWithin 0 1) (sanitize_number_list accepts_confidence values)
    confidences-All values =
        sanitize_number_list-All (IsWithin 0 1) accepts_confidence values
          (λ v e. round6-IsWithin 0 1 v (ground arith))

    sample_count-IsWithin :
        (value : Option F) → IsWithin 1 1000 (normalize_min_sample_count value).0
    unfolding normalize_min_sample_count
    sample_count-IsWithin Option.none =
        (laws.dec_le 1 3 0 (omega arith), laws.dec_le 3 1000 0 (omega arith))
    sample_count-IsWithin (Option.some value) =
        ground (arith, laws.dec_le 1 3 0 (omega arith), laws.dec_le 3 1000 0 (omega arith))

    parameter_set-IsInRange :
        (count : F) (i : OhlcvInterval) (e s l c f p : F)
        → is_allowed i ≡ true
        → IsWithin 0 5000 e
        → IsWithin 0 1 s
        → IsWithin 10 1000 l
        → IsWithin 0 1 c
        → IsWithin 0 1000 f
        → IsWithin 0 1000 p
        → IsWithin 1 1000 count
        → IsInRange (parameter_set count i e s l c f p)
    unfolding parameter_set
    parameter_set-IsInRange count i e s l c f p hi he hs hl hc hf hp hn = record {
      interval = hi;
      min_edge_bps = he;
      max_spread = round6-IsWithin 0 1 s hs;
      volatility_lookback_candles = hl;
      min_confidence = round6-IsWithin 0 1 c hc;
      fees_bps = hf;
      slippage_bps = hp;
      min_sample_count = hn;
    }

    combinations-IsInRange :
        (o : ParameterGridOptions F) → All IsInRange (combinations (sanitize_options o))
    unfolding combinations sanitize_options
    combinations-IsInRange o =
        let axes = sanitize_options o in
        flat_map-All IsInRange (λ i. is_allowed i ≡ true) _ axes.intervals
          (λ i hi.
            flat_map-All IsInRange (IsWithin 0 5000) _ axes.edges
              (λ e he.
                flat_map-All IsInRange (IsWithin 0 1) _ axes.spreads
                  (λ s hs.
                    flat_map-All IsInRange (IsWithin 10 1000) _ axes.lookbacks
                      (λ l hl.
                        flat_map-All IsInRange (IsWithin 0 1) _ axes.confidences
                          (λ c hc.
                            flat_map-All IsInRange (IsWithin 0 1000) _ axes.fees
                              (λ f hf.
                                flat_map-All IsInRange (IsWithin 0 1000)
                                  (λ p. parameter_set axes.min_sample_count i e s l c f p ∷ [])
                                  axes.slippages
                                  (λ p hp. (
                                    parameter_set-IsInRange axes.min_sample_count i e s l c f p hi
                                        he hs hl hc hf hp
                                        (sample_count-IsWithin o.min_sample_count),
                                    tt,
                                  ))
                                  (integers-All 0 1000 _))
                              (integers-All 0 1000 _))
                          (confidences-All _))
                      (integers-All 10 1000 _))
                  (spreads-All _))
              (integers-All 0 5000 _))
          (sanitize_intervals-All (get_or o.intervals default_intervals))

    -- Every parameter set of a grid, whatever the options, has an allowed interval and values within
    -- these ranges: the edge within 0 and 5000, the confidence within 0 and 1, and also the spread,
    -- which rounding can take to 0; the lookback within 10 and 1000, fee and slippage within 0 and
    -- 1000, and the sample count within 1 and 1000.
    pub grid-IsInRange :
        (options : ParameterGridOptions F)
        → All IsInRange (build_fair_value_v1_parameter_grid options).parameter_grid
    grid-IsInRange options =
        let built = build_fair_value_v1_parameter_grid options in
        rw (build_grid_lem laws options).0
          (All-take IsInRange built.max_combinations _ (combinations-IsInRange options))
