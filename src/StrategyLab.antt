-- ===== src/StrategyLab.antt =====
-- The strategy lab, packages/research-signals/src/strategy-lab/: the grid of parameter sets that a
-- sweep tries, the windows of the walk-forward validation, and the ranking of the results. The
-- contracts are those of packages/shared-types/src/index.ts.
pub mod Grid
pub mod Ranking
pub mod Sweep
pub mod WalkForward
mod Runs
mod Tests
use event_probability_termin.Base.{List, String}
use event_probability_termin.Market.{OhlcvInterval}

-- The parts of the text that `parameterSetId` joins: spread and confidence are printed with two
-- decimals, so the number that this leaves stands for the text.
pub record ParameterSetId (F : Type 0) : Type 0 where
  pub interval : OhlcvInterval
  pub edge : F
  pub spread : F
  pub lookback : F
  pub confidence : F
  pub fee : F
  pub slippage : F

pub record StrategyParameterSet (F : Type 0) : Type 0 where
  pub id : ParameterSetId F
  pub interval : OhlcvInterval
  pub min_edge_bps : F
  pub max_spread : F
  pub volatility_lookback_candles : F
  pub min_confidence : F
  pub min_sample_count : F
  pub fees_bps : F
  pub slippage_bps : F
  pub notes : List String
