-- ===== src/StrategyLab/Ranking.antt =====
-- packages/research-signals/src/strategy-lab/ranking.ts: the score of a parameter set, the reasons
-- against it, and the ranking.
pub mod Order
use event_probability_termin.Base.{
  ℕ, suc, ◌+◌, Option, none, some, Bool, true, false, not, ◌&&◌, List, [], ◌∷◌, ◌++◌, map, String,
  ltb, ◌==◌, if◌then◌else◌, get_or, is_none, filter, take, last?, is_empty, only_if, sort, unique,
}
use mathlib.Core.Option
use event_probability_termin.Base.Number.{Number}
use event_probability_termin.Market.{DataSourceType, is_interval}
use event_probability_termin.StrategyLab.{ParameterSetId, StrategyParameterSet}
use event_probability_termin.EventReplay.Metrics.{ReplayMetrics}

pub data StrategyParameterOverfitRisk : Type 0 where
  low medium high unknown : StrategyParameterOverfitRisk

pub record StrategyScoreBreakdown (F : Type 0) : Type 0 where
  pub win_rate_component : F
  pub pnl_component : F
  pub coverage_component : F
  pub drawdown_penalty : F
  pub low_sample_penalty : F
  pub pending_penalty : F
  pub overfit_penalty : F
  pub total : F

pub record ParameterSweepResult (F : Type 0) : Type 0 where
  pub parameter_set : StrategyParameterSet F
  pub metrics : ReplayMetrics F
  pub rank : ℕ
  pub score : F
  pub score_breakdown : StrategyScoreBreakdown F
  pub warnings : List String
  pub rejection_reasons : List String
  pub overfit_risk : StrategyParameterOverfitRisk
  pub source_type : DataSourceType
  pub is_research_only : Bool

-- `id` is the number in the text `wf-1`, `wf-2`, ….
pub record WalkForwardWindow : Type 0 where
  pub id : ℕ
  pub train_start : ℕ
  pub train_end : ℕ
  pub test_start : ℕ
  pub test_end : ℕ
  pub train_sample_count : ℕ
  pub test_sample_count : ℕ

pub record WalkForwardDegradation (F : Type 0) : Type 0 where
  pub win_rate_delta : Option F
  pub pnl_delta : Option F
  pub max_drawdown_delta : Option F
  pub coverage_delta : Option F

pub record WalkForwardStability (F : Type 0) : Type 0 where
  pub passed_windows : ℕ
  pub failed_windows : ℕ
  pub consistency_score : F

pub record WalkForwardResult (F : Type 0) : Type 0 where
  pub parameter_set : StrategyParameterSet F
  pub windows : List WalkForwardWindow
  pub aggregate_train_metrics : ReplayMetrics F
  pub aggregate_test_metrics : ReplayMetrics F
  pub degradation : WalkForwardDegradation F
  pub stability : WalkForwardStability F
  pub overfit_risk : StrategyParameterOverfitRisk
  pub warnings : List String

pub record RankedResults (F : Type 0) : Type 0 where
  pub parameter_results : List (ParameterSweepResult F)
  pub top_candidates : List (ParameterSweepResult F)
  pub rejected_parameter_sets : List (ParameterSweepResult F)

abbrev pub is_high : StrategyParameterOverfitRisk → Bool
is_high StrategyParameterOverfitRisk.high = true
is_high _ = false

abbrev pub is_unknown : StrategyParameterOverfitRisk → Bool
is_unknown StrategyParameterOverfitRisk.unknown = true
is_unknown _ = false

module _ {F : Type 0} ⦃N : Number F⦄ where
  abbrev pub zero : F
  zero = N.dec 0 0

  unfoldable pub clamp : F → F → F → F
  clamp value least most = N.smallest most (N.largest least value)

  abbrev pub round6 : F → F
  round6 = N.to_fixed 6

  -- `metrics.actionableCount < minSampleCount`, of a count and a number.
  abbrev pub count_below : ℕ → F → Bool
  count_below count limit = N.lt (N.dec count 0) limit

  unfoldable pub build_score_breakdown :
      ReplayMetrics F
      → StrategyParameterOverfitRisk
      → (min_sample_count : F) → StrategyScoreBreakdown F
  unfolding clamp
  build_score_breakdown metrics overfit_risk min_sample_count =
      let win_rate_component : F = elim metrics.win_rate [
        | none ↦ N.neg (N.dec 35 0)
        | some rate ↦ N.mul rate (N.dec 45 0)
      ] in
      let pnl = get_or metrics.cumulative_theoretical_pnl (N.neg (N.dec 1 0)) in
      let pnl_component = N.mul (clamp pnl (N.neg (N.dec 2 0)) (N.dec 2 0)) (N.dec 12 0) in
      let coverage_component = N.mul (get_or metrics.coverage_rate zero) (N.dec 18 0) in
      let drawdown_penalty =
        N.mul (N.largest zero (get_or metrics.max_drawdown zero)) (N.dec 16 0) in
      let missing = N.sub min_sample_count (N.dec metrics.actionable_count 0) in
      let low_sample_penalty =
        if count_below metrics.actionable_count min_sample_count
        then N.add (N.dec 20 0) (N.mul missing (N.dec 2 0))
        else if ltb metrics.sample_count 20
        then N.dec 8 0
        else zero in
      let pending_penalty = N.mul (get_or metrics.pending_rate zero) (N.dec 12 0) in
      let overfit_penalty : F = elim overfit_risk [
        | StrategyParameterOverfitRisk.high ↦ N.dec 25 0
        | StrategyParameterOverfitRisk.medium ↦ N.dec 10 0
        | StrategyParameterOverfitRisk.unknown ↦ N.dec 6 0
        | StrategyParameterOverfitRisk.low ↦ zero
      ] in
      let gain = N.add (N.add win_rate_component pnl_component) coverage_component in
      record {
        win_rate_component = round6 win_rate_component;
        pnl_component = round6 pnl_component;
        coverage_component = round6 coverage_component;
        drawdown_penalty = round6 drawdown_penalty;
        low_sample_penalty = round6 low_sample_penalty;
        pending_penalty = round6 pending_penalty;
        overfit_penalty = round6 overfit_penalty;
        total = round6 (
            N.sub (N.sub (N.sub (N.sub gain drawdown_penalty) low_sample_penalty) pending_penalty)
              overfit_penalty);
      }

  abbrev pub has_negative_pnl : ReplayMetrics F → Bool
  has_negative_pnl metrics = N.lt (get_or metrics.cumulative_theoretical_pnl zero) zero

  abbrev pub has_high_drawdown : ReplayMetrics F → Bool
  has_high_drawdown metrics = N.lt (N.dec 1 0) (get_or metrics.max_drawdown zero)

  -- `a >= b`
  abbrev pub at_least : F → F → Bool
  at_least a b = N.le b a

  -- The tests with a known win rate, from the fourth `if` on.
  abbrev known_rate_risk : ReplayMetrics F → F → F → StrategyParameterOverfitRisk
  known_rate_risk metrics min_sample_count rate =
      if count_below metrics.sample_count (N.smallest (N.dec 3 0) min_sample_count)
      then StrategyParameterOverfitRisk.unknown
      else if count_below metrics.sample_count min_sample_count
      then if at_least rate (N.dec 75 2)
        then StrategyParameterOverfitRisk.high
        else StrategyParameterOverfitRisk.medium
      else if ltb metrics.sample_count 20 && at_least rate (N.dec 8 1)
      then StrategyParameterOverfitRisk.medium
      else if has_negative_pnl metrics
      then StrategyParameterOverfitRisk.medium
      else if has_high_drawdown metrics
      then StrategyParameterOverfitRisk.medium
      else StrategyParameterOverfitRisk.low

  unfoldable pub estimate_sweep_overfit_risk :
      ReplayMetrics F → (min_sample_count : F) → StrategyParameterOverfitRisk
  estimate_sweep_overfit_risk metrics min_sample_count =
      let known : StrategyParameterOverfitRisk = elim metrics.win_rate [
        | none ↦ StrategyParameterOverfitRisk.unknown
        | some rate ↦ known_rate_risk metrics min_sample_count rate
      ] in
      if (metrics.sample_count == 0) && (metrics.actionable_count == 0)
      then StrategyParameterOverfitRisk.unknown
      else known

  unfoldable pub warnings_for_metrics :
      ReplayMetrics F → (min_sample_count : F) → StrategyParameterOverfitRisk → List String
  warnings_for_metrics metrics min_sample_count overfit_risk = unique (
      metrics.warnings
      ++ only_if (ltb metrics.sample_count 20) "LOW_SAMPLE_SIZE"
      ++ only_if (count_below metrics.actionable_count min_sample_count) "LOW_ACTIONABLE_COUNT"
      ++ only_if (is_none metrics.win_rate) "NULL_WIN_RATE"
      ++ only_if (has_negative_pnl metrics) "NEGATIVE_THEORETICAL_PNL"
      ++ only_if (has_high_drawdown metrics) "HIGH_MAX_DRAWDOWN"
      ++ only_if (N.lt (N.dec 25 2) (get_or metrics.pending_rate zero)) "HIGH_PENDING_RATE"
      ++ only_if (is_high overfit_risk) "HIGH_OVERFIT_RISK"
      ++ only_if (is_unknown overfit_risk) "UNKNOWN_OVERFIT_RISK")

  -- The reasons that the out-of-sample windows give.
  abbrev pub walk_forward_reasons : Option (WalkForwardResult F) → List String
  walk_forward_reasons none = []
  walk_forward_reasons (some w) =
      only_if (is_high w.overfit_risk) "WALK_FORWARD_HIGH_OVERFIT_RISK"
      ++ only_if (N.lt w.stability.consistency_score (N.dec 5 1)) "LOW_WALK_FORWARD_CONSISTENCY"
      ++ only_if (has_negative_pnl w.aggregate_test_metrics)
          "NEGATIVE_OUT_OF_SAMPLE_THEORETICAL_PNL"

  abbrev pub metric_reasons : ParameterSweepResult F → List String
  metric_reasons r =
      only_if (is_none r.metrics.win_rate) "NULL_WIN_RATE"
      ++ only_if (count_below r.metrics.actionable_count r.parameter_set.min_sample_count)
          "ACTIONABLE_COUNT_BELOW_MIN_SAMPLE"
      ++ only_if (has_negative_pnl r.metrics) "NEGATIVE_THEORETICAL_PNL"
      ++ only_if (is_high r.overfit_risk) "HIGH_OVERFIT_RISK"

  unfoldable pub rejection_reasons_for_result :
      ParameterSweepResult F → Option (WalkForwardResult F) → List String
  rejection_reasons_for_result result walk_forward = unique (
      result.rejection_reasons
      ++ (only_if (not result.is_research_only) "NOT_RESEARCH_ONLY"
          ++ (metric_reasons result ++ walk_forward_reasons walk_forward)))

  -- Equality of the texts that `parameterSetId` makes of these parts.
  abbrev pub same_id : ParameterSetId F → ParameterSetId F → Bool
  same_id a b =
      is_interval a.interval b.interval
      && N.eq a.edge b.edge
      && N.eq a.spread b.spread
      && N.eq a.lookback b.lookback
      && N.eq a.confidence b.confidence
      && N.eq a.fee b.fee
      && N.eq a.slippage b.slippage

  -- `walkForwardById.get(id)`: of two results with one id, the map keeps the last.
  abbrev pub walk_forward_of :
      List (WalkForwardResult F) → ParameterSetId F → Option (WalkForwardResult F)
  walk_forward_of results id = last? (filter (λ w. same_id w.parameter_set.id id) results)

  -- The result with the reasons and warnings that it is ranked with.
  unfoldable pub assessed :
      List (WalkForwardResult F) → ParameterSweepResult F → ParameterSweepResult F
  unfolding rejection_reasons_for_result
  assessed walk_forward_results result =
      let found = walk_forward_of walk_forward_results result.parameter_set.id in
      let more : List String = elim found [
        | none ↦ []
        | some w ↦ w.warnings ++ only_if (is_high w.overfit_risk) "WALK_FORWARD_HIGH_OVERFIT_RISK"
      ] in
      record result {
        rejection_reasons = rejection_reasons_for_result result found;
        warnings = unique (result.warnings ++ more);
      }

  -- `.map((result, index) => ({ ...result, rank: index + 1 }))`, from `index` on.
  abbrev pub ranked_from : ℕ → List (ParameterSweepResult F) → List (ParameterSweepResult F)
  ranked_from index [] = []
  ranked_from index (r ∷ rs) = record r { rank = suc index } ∷ ranked_from (suc index) rs

  -- `b.score - a.score` is negative.
  abbrev pub scores_above : ParameterSweepResult F → ParameterSweepResult F → Bool
  scores_above a b = N.lt b.score a.score

  unfoldable pub rank_strategy_parameter_results :
      List (ParameterSweepResult F)
      → List (WalkForwardResult F)
      → (top_candidate_limit : Option ℕ) → RankedResults F
  unfolding assessed
  rank_strategy_parameter_results results walk_forward_results limit =
      let parameter_results =
        ranked_from 0 (sort scores_above (map (assessed walk_forward_results) results)) in
      let passes = λ (r : ParameterSweepResult F). is_empty r.rejection_reasons in
      record {
        parameter_results = parameter_results;
        top_candidates = take (get_or limit 5) (filter passes parameter_results);
        rejected_parameter_sets = filter (λ r. not (passes r)) parameter_results;
      }
