-- ===== src/StrategyLab/Grid.antt =====
-- packages/research-signals/src/strategy-lab/parameter-grid.ts.
pub mod Loops
pub mod Bounds
pub mod Values
use event_probability_termin.Base.{
  ℕ, ◌*◌, Option, none, some, Bool, true, false, not, ◌&&◌, List, [], ◌∷◌, ◌++◌, map, String, ltb,
  leb, if◌then◌else◌, get_or, filter, length, is_empty, only_if, sort,
}
use event_probability_termin.Base.Number.{Number}
use event_probability_termin.Market.{OhlcvInterval}
use event_probability_termin.StrategyLab.{StrategyParameterSet}
use event_probability_termin.StrategyLab.Grid.Loops.{for_each}

abbrev pub default_max_combinations : ℕ
default_max_combinations = 50

abbrev pub max_combinations_limit : ℕ
max_combinations_limit = 100

-- The texts that the grid reports, with the values that they show.
pub data GridWarning : Type 0 where
  below_one : GridWarning
  capped_at_limit : GridWarning
  truncated : (requested cap : ℕ) → GridWarning
  invalid_values_rejected : GridWarning

pub data RejectedValue (F : Type 0) : Type 0 where
  interval_value : OhlcvInterval → RejectedValue F
  number_value : String → F → RejectedValue F

pub record ParameterGridOptions (F : Type 0) : Type 0 where
  pub intervals : Option (List OhlcvInterval)
  pub min_edge_bps : Option (List F)
  pub max_spread : Option (List F)
  pub volatility_lookback_candles : Option (List F)
  pub min_confidence : Option (List F)
  pub fees_bps : Option (List F)
  pub slippage_bps : Option (List F)
  pub min_sample_count : Option F
  pub max_combinations : Option F

pub record ParameterGridBuildResult (F : Type 0) : Type 0 where
  pub parameter_grid : List (StrategyParameterSet F)
  pub warnings : List GridWarning
  pub rejected_values : List (RejectedValue F)
  pub requested_combination_count : ℕ
  pub max_combinations : ℕ

-- `allowedIntervals.includes(value)`
abbrev pub is_allowed : OhlcvInterval → Bool
is_allowed OhlcvInterval.m1 = true
is_allowed OhlcvInterval.m5 = true
is_allowed OhlcvInterval.m15 = true
is_allowed OhlcvInterval.h1 = true
is_allowed _ = false

abbrev pub same_interval : OhlcvInterval → OhlcvInterval → Bool
same_interval OhlcvInterval.m1 OhlcvInterval.m1 = true
same_interval OhlcvInterval.m5 OhlcvInterval.m5 = true
same_interval OhlcvInterval.m15 OhlcvInterval.m15 = true
same_interval OhlcvInterval.h1 OhlcvInterval.h1 = true
same_interval _ _ = false

abbrev pub default_intervals : List OhlcvInterval
default_intervals = OhlcvInterval.m5 ∷ OhlcvInterval.m15 ∷ []

-- `[...new Set(values)]` under an equality test.
abbrev pub distinct_by {ℓ} : {A : Type ℓ} → (A → A → Bool) → List A → List A
distinct_by same [] = []
distinct_by same (x ∷ xs) = x ∷ filter (λ y. not (same x y)) (distinct_by same xs)

-- The accepted intervals, of those allowed, and the default ones where none is left.
unfoldable pub sanitize_intervals : List OhlcvInterval → List OhlcvInterval
sanitize_intervals values =
    let accepted = distinct_by same_interval (filter is_allowed values) in
    if is_empty accepted then default_intervals else accepted

abbrev pub rejected_intervals : {F : Type 0} → List OhlcvInterval → List (RejectedValue F)
rejected_intervals values =
    map RejectedValue.interval_value (filter (λ v. not (is_allowed v)) values)

-- The lists over which the loops run, and the sample count that they all share.
pub record Axes (F : Type 0) : Type 0 where
  pub intervals : List OhlcvInterval
  pub edges : List F
  pub spreads : List F
  pub lookbacks : List F
  pub confidences : List F
  pub fees : List F
  pub slippages : List F
  pub min_sample_count : F

module _ {F : Type 0} ⦃N : Number F⦄ where
  unfoldable pub normalize_max_combinations : Option F → ℕ × List GridWarning
  normalize_max_combinations none = (default_max_combinations, [])
  normalize_max_combinations (some value) =
      let normalized = N.floor value in
      if not (N.is_finite value)
      then (default_max_combinations, [])
      else if N.lt value (N.dec 1 0)
      then (1, GridWarning.below_one ∷ [])
      else if ltb max_combinations_limit normalized
      then (max_combinations_limit, GridWarning.capped_at_limit ∷ [])
      else (normalized, [])

  -- `Number.isInteger(value) && value >= low && value <= high`
  abbrev pub is_integer_in : ℕ → ℕ → F → Bool
  is_integer_in low high value =
      N.is_integer value && N.le (N.dec low 0) value && N.le value (N.dec high 0)

  unfoldable pub normalize_min_sample_count : Option F → F × List (RejectedValue F)
  normalize_min_sample_count none = (N.dec 3 0, [])
  normalize_min_sample_count (some value) =
      if is_integer_in 1 1000 value
      then (value, [])
      else (N.dec 3 0, RejectedValue.number_value "minSampleCount" value ∷ [])

  abbrev pub round6 : F → F
  round6 value = N.to_fixed 6 value

  abbrev pub passes : (F → Bool) → F → Bool
  passes accepts value = N.is_finite value && accepts value

  -- The accepted values, rounded, each once, in ascending order.
  unfoldable pub sanitize_number_list : (F → Bool) → List F → List F
  sanitize_number_list accepts values =
      sort N.lt (distinct_by N.eq (map round6 (filter (passes accepts) values)))

  abbrev pub rejected_numbers : String → (F → Bool) → List F → List (RejectedValue F)
  rejected_numbers label accepts values =
      map (RejectedValue.number_value label) (filter (λ v. not (passes accepts v)) values)

  abbrev pub accepts_spread : F → Bool
  accepts_spread value = N.lt (N.dec 0 0) value && N.le value (N.dec 1 0)

  abbrev pub accepts_confidence : F → Bool
  accepts_confidence value = N.le (N.dec 0 0) value && N.le value (N.dec 1 0)

  -- `options.x ?? defaultX` for each list.
  abbrev edges_of : ParameterGridOptions F → List F
  edges_of o = get_or o.min_edge_bps (N.dec 200 0 ∷ N.dec 500 0 ∷ N.dec 800 0 ∷ [])

  abbrev spreads_of : ParameterGridOptions F → List F
  spreads_of o = get_or o.max_spread (N.dec 5 2 ∷ N.dec 10 2 ∷ N.dec 15 2 ∷ [])

  abbrev lookbacks_of : ParameterGridOptions F → List F
  lookbacks_of o = get_or o.volatility_lookback_candles (N.dec 20 0 ∷ N.dec 50 0 ∷ N.dec 100 0 ∷ [])

  abbrev confidences_of : ParameterGridOptions F → List F
  confidences_of o = get_or o.min_confidence (N.dec 2 1 ∷ N.dec 4 1 ∷ [])

  abbrev fees_of : ParameterGridOptions F → List F
  fees_of o = get_or o.fees_bps (N.dec 0 0 ∷ N.dec 50 0 ∷ [])

  abbrev slippages_of : ParameterGridOptions F → List F
  slippages_of o = get_or o.slippage_bps (N.dec 0 0 ∷ N.dec 50 0 ∷ [])

  unfoldable pub sanitize_options : ParameterGridOptions F → Axes F
  unfolding sanitize_intervals sanitize_number_list normalize_min_sample_count
  sanitize_options o = record {
    intervals = sanitize_intervals (get_or o.intervals default_intervals);
    edges = sanitize_number_list (is_integer_in 0 5000) (edges_of o);
    spreads = sanitize_number_list accepts_spread (spreads_of o);
    lookbacks = sanitize_number_list (is_integer_in 10 1000) (lookbacks_of o);
    confidences = sanitize_number_list accepts_confidence (confidences_of o);
    fees = sanitize_number_list (is_integer_in 0 1000) (fees_of o);
    slippages = sanitize_number_list (is_integer_in 0 1000) (slippages_of o);
    min_sample_count = (normalize_min_sample_count o.min_sample_count).0;
  }

  unfoldable pub rejected_of : ParameterGridOptions F → List (RejectedValue F)
  unfolding normalize_min_sample_count
  rejected_of o =
      rejected_intervals (get_or o.intervals default_intervals)
      ++ (rejected_numbers "minEdgeBps" (is_integer_in 0 5000) (edges_of o)
          ++ (rejected_numbers "maxSpread" accepts_spread (spreads_of o)
              ++ (rejected_numbers "volatilityLookbackCandles" (is_integer_in 10 1000)
                    (lookbacks_of o)
                  ++ (rejected_numbers "minConfidence" accepts_confidence (confidences_of o)
                      ++ (rejected_numbers "feesBps" (is_integer_in 0 1000) (fees_of o)
                          ++ (rejected_numbers "slippageBps" (is_integer_in 0 1000) (slippages_of o)
                              ++ (normalize_min_sample_count o.min_sample_count).1))))))

  abbrev pub requested_count : Axes F → ℕ
  requested_count a =
      length a.intervals
      * length a.edges
      * length a.spreads
      * length a.lookbacks
      * length a.confidences
      * length a.fees
      * length a.slippages

  unfoldable pub parameter_set : F → OhlcvInterval → F → F → F → F → F → F → StrategyParameterSet F
  parameter_set min_sample_count interval edge spread lookback confidence fee slippage = record {
    id = record {
      interval = interval;
      edge = edge;
      spread = N.to_fixed 2 spread;
      lookback = lookback;
      confidence = N.to_fixed 2 confidence;
      fee = fee;
      slippage = slippage;
    };
    interval = interval;
    min_edge_bps = edge;
    max_spread = round6 spread;
    volatility_lookback_candles = lookback;
    min_confidence = round6 confidence;
    min_sample_count = min_sample_count;
    fees_bps = fee;
    slippage_bps = slippage;
    notes =
        "Research-only fair-value-v1 parameter candidate."
        ∷ "Candidate ranking is not production trading approval." ∷ [];
  }

  -- The seven nested loops, which return as soon as the grid holds `cap` sets. The Boolean tells
  -- that they have returned.
  unfoldable pub grid_loops : ℕ → Axes F → List (StrategyParameterSet F) × Bool
  grid_loops cap a =
      for_each a.intervals
        (λ interval. for_each a.edges (λ edge. for_each a.spreads (λ spread.
          for_each a.lookbacks (λ lookback. for_each a.confidences (λ confidence.
            for_each a.fees (λ fee. for_each a.slippages (λ slippage grid.
              let longer =
                grid
                ++ parameter_set a.min_sample_count interval edge spread lookback confidence fee
                    slippage
                  ∷ [] in
              (longer, leb cap (length longer)))))))))
        []

  unfoldable pub build_fair_value_v1_parameter_grid :
      ParameterGridOptions F → ParameterGridBuildResult F
  build_fair_value_v1_parameter_grid options =
      let (cap, cap_warnings) = normalize_max_combinations options.max_combinations in
      let axes = sanitize_options options in
      let rejected = rejected_of options in
      let requested = requested_count axes in
      record {
        parameter_grid = (grid_loops cap axes).0;
        warnings =
            cap_warnings
            ++ (only_if (ltb cap requested) (GridWarning.truncated requested cap)
                ++ only_if (not (is_empty rejected)) GridWarning.invalid_values_rejected);
        rejected_values = rejected;
        requested_combination_count = requested;
        max_combinations = cap;
      }
