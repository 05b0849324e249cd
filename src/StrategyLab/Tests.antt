-- ===== src/StrategyLab/Tests.antt =====
-- The theorems on the parameter grid at concrete options.
use event_probability_termin.Base.{◌≤◌, ◌≡◌, none, some, [], ◌∷◌, All, length, take, min}
use event_probability_termin.Base.Int.{pos, negsuc}
use event_probability_termin.Base.Fixed.{Fixed, fixed_number, Fixed-IsOrdered}
use event_probability_termin.Market.{OhlcvInterval}
use event_probability_termin.StrategyLab.Grid.{
  ParameterGridOptions, sanitize_options, build_fair_value_v1_parameter_grid,
}
use event_probability_termin.StrategyLab.Grid.Bounds.{combinations, build_grid_lem}
use event_probability_termin.StrategyLab.Grid.Values.{IsInRange, grid-IsInRange}

-- One allowed interval and one that is not, one edge out of range, and a cap of seven.
abbrev options : ParameterGridOptions Fixed
options = record {
  intervals = some (OhlcvInterval.m1 ∷ OhlcvInterval.d1 ∷ []);
  min_edge_bps = some (pos 10_000_000_000 ∷ negsuc 99_999_999 ∷ []);
  max_spread = none;
  volatility_lookback_candles = none;
  min_confidence = none;
  fees_bps = none;
  slippage_bps = none;
  min_sample_count = none;
  max_combinations = some (pos 700_000_000);
}

build_grid_lem_example :
    let built = build_fair_value_v1_parameter_grid options in
    (built.parameter_grid ≡ take built.max_combinations (combinations (sanitize_options options)))
    × (length built.parameter_grid ≡ min built.max_combinations built.requested_combination_count)
    × (1 ≤ built.max_combinations)
    × (built.max_combinations ≤ 100)
build_grid_lem_example = build_grid_lem Fixed-IsOrdered options

grid-IsInRange_example : All IsInRange (build_fair_value_v1_parameter_grid options).parameter_grid
grid-IsInRange_example = grid-IsInRange Fixed-IsOrdered options
