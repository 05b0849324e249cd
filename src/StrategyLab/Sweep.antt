-- ===== src/StrategyLab/Sweep.antt =====
-- packages/research-signals/src/strategy-lab/sweep-runner.ts: the replay of each parameter set, and
-- the figures of several replays together.
pub mod Pool
pub mod Totals
use mathlib.Core.Option
use mathlib.Core.List.{foldl, filter_map}
use event_probability_termin.Base.{
  ℕ, ◌+◌, Option, none, some, Bool, true, false, not, List, [], ◌∷◌, ◌++◌, map, String, ltb,
  if◌then◌else◌, get_or, length, is_empty, only_if, take, unique,
}
use event_probability_termin.Base.Number.{Number}
use event_probability_termin.Market.{DataSourceType, OhlcvInterval}
use event_probability_termin.StrategyLab.{StrategyParameterSet}
use event_probability_termin.StrategyLab.Grid.{GridWarning, normalize_max_combinations}
use event_probability_termin.StrategyLab.Ranking.{
  ParameterSweepResult, build_score_breakdown, estimate_sweep_overfit_risk, warnings_for_metrics,
  metric_reasons, rank_strategy_parameter_results,
}
use event_probability_termin.EventReplay.{ReplayWindow, ReplayWindowId}
use event_probability_termin.EventReplay.Windows.{WindowRequest}
use event_probability_termin.EventReplay.Metrics.{
  ReplaySymbolFilter, ReplayMetrics, ratio, sum, finite_of,
}
use Prim.Native.String

-- The part of `RunSignalReplayInput` that a sweep fills in.
pub record RunSignalReplayInput (F : Type 0) : Type 0 where
  pub symbol : ReplaySymbolFilter
  pub window : WindowRequest
  pub interval : OhlcvInterval
  pub min_edge_bps : F
  pub max_spread : F
  pub volatility_lookback_candles : F
  pub min_confidence : F
  pub fees_bps : F
  pub slippage_bps : F
  pub timeout_ms : Option ℕ
  pub use_mock : Option Bool

pub record RunSignalReplayOutput (F : Type 0) : Type 0 where
  pub metrics : ReplayMetrics F
  pub source_type : DataSourceType
  pub warnings : List String

-- The runner of replays is an argument, one that answers every request. A runner that throws ends the
-- sweep with its error.
abbrev pub ReplayRunner : Type 0 → Type 0
ReplayRunner F = RunSignalReplayInput F → RunSignalReplayOutput F

pub record SweepContext (F : Type 0) : Type 0 where
  pub symbol : ReplaySymbolFilter
  pub window : WindowRequest
  pub use_mock : Option Bool
  pub replay_runner : ReplayRunner F

pub record ParameterSweepRequest (F : Type 0) : Type 0 where
  pub symbol : ReplaySymbolFilter
  pub window : ReplayWindowId
  pub parameter_grid : List (StrategyParameterSet F)
  pub is_mock_mode : Bool
  pub max_combinations : ℕ
  pub checked_at : ℕ

pub record RunParameterSweepOutput (F : Type 0) : Type 0 where
  pub request : ParameterSweepRequest F
  pub parameter_results : List (ParameterSweepResult F)
  pub top_candidates : List (ParameterSweepResult F)
  pub rejected_parameter_sets : List (ParameterSweepResult F)
  pub warnings : List String

abbrev pub concat_all {ℓ} : {A : Type ℓ} → List (List A) → List A
concat_all [] = []
concat_all (xs ∷ rest) = xs ++ concat_all rest

-- The sum of a list of counts.
abbrev pub total : List ℕ → ℕ
total [] = 0
total (n ∷ ns) = n + total ns

infixl 60 ◌<>◌
abbrev pub ◌<>◌ : String → String → String
s <> t = String.◌++◌ s t

-- `replayWindowIdForRequest`, and the name itself where a name is given.
unfoldable pub replay_window_id_for_request : WindowRequest → ReplayWindowId
replay_window_id_for_request (WindowRequest.named id) = id
replay_window_id_for_request (WindowRequest.given window) = elim window.id [
  | ReplayWindowId.custom ↦ ReplayWindowId.w1
  | ReplayWindowId.d1 ↦ ReplayWindowId.d1
  | ReplayWindowId.d3 ↦ ReplayWindowId.d3
  | ReplayWindowId.w1 ↦ ReplayWindowId.w1
  | ReplayWindowId.m1 ↦ ReplayWindowId.m1
]

-- `input.useMock` is absent or false.
abbrev is_live : Option Bool → Bool
is_live (some true) = false
is_live _ = true

-- The texts of `normalizeMaxCombinations`; the other warnings of the grid do not occur there.
abbrev limit_text : GridWarning → String
limit_text GridWarning.below_one = "maxCombinations below 1; using 1."
limit_text GridWarning.capped_at_limit = "maxCombinations capped at 100."
limit_text _ = ""

module _ {F : Type 0} where
  unfoldable pub approximate_evaluated_count : ReplayMetrics F → ℕ
  approximate_evaluated_count m =
      m.sample_count + m.pending_count + m.unresolved_count + m.rejected_count + m.no_signal_count

  -- `sum(metrics.map(count))`
  abbrev pub total_of : (ReplayMetrics F → ℕ) → List (ReplayMetrics F) → ℕ
  total_of count metrics = total (map count metrics)

module _ {F : Type 0} ⦃N : Number F⦄ where
  abbrev pub request_of : SweepContext F → StrategyParameterSet F → RunSignalReplayInput F
  request_of context set = record {
    symbol = context.symbol;
    window = context.window;
    interval = set.interval;
    min_edge_bps = set.min_edge_bps;
    max_spread = set.max_spread;
    volatility_lookback_candles = set.volatility_lookback_candles;
    min_confidence = set.min_confidence;
    fees_bps = set.fees_bps;
    slippage_bps = set.slippage_bps;
    timeout_ms = if is_live context.use_mock then some 2_500 else none;
    use_mock = context.use_mock;
  }

  -- The result that a replay gives its parameter set.
  unfoldable pub rated : StrategyParameterSet F → RunSignalReplayOutput F → ParameterSweepResult F
  rated set replay =
      let overfit_risk = estimate_sweep_overfit_risk replay.metrics set.min_sample_count in
      let score_breakdown =
        build_score_breakdown replay.metrics overfit_risk set.min_sample_count in
      let result : ParameterSweepResult F = record {
        parameter_set = set;
        metrics = replay.metrics;
        rank = 0;
        score = score_breakdown.total;
        score_breakdown = score_breakdown;
        warnings = warnings_for_metrics replay.metrics set.min_sample_count overfit_risk;
        rejection_reasons = [];
        overfit_risk = overfit_risk;
        source_type = replay.source_type;
        is_research_only = true;
      } in
      record result { rejection_reasons = unique (metric_reasons result) }

  unfoldable pub run_replay_for_parameter :
      SweepContext F → StrategyParameterSet F → ParameterSweepResult F
  unfolding rated
  run_replay_for_parameter context set = rated set (context.replay_runner (request_of context set))

  -- The replays run in a pool of five; its results are those of `map`, whatever their order in time.
  -- `decimal` prints a whole number.
  unfoldable pub run_parameter_sweep :
      (decimal : ℕ → String)
      → SweepContext F
      → List (StrategyParameterSet F)
      → (max_combinations : Option F) (checked_at : ℕ) → RunParameterSweepOutput F
  unfolding run_replay_for_parameter replay_window_id_for_request rank_strategy_parameter_results
  run_parameter_sweep decimal context grid max_combinations checked_at =
      let (limit, limit_warnings) = normalize_max_combinations max_combinations in
      let parameter_grid = take limit grid in
      let truncated =
        ("PARAMETER_GRID_TRUNCATED requested " <> decimal (length grid))
        <> "; evaluated "
        <> decimal (length parameter_grid)
        <> "." in
      let results = map (run_replay_for_parameter context) parameter_grid in
      let ranked = rank_strategy_parameter_results results [] none in
      record {
        request = record {
          symbol = context.symbol;
          window = replay_window_id_for_request context.window;
          parameter_grid = parameter_grid;
          is_mock_mode = not (is_live context.use_mock);
          max_combinations = limit;
          checked_at = checked_at;
        };
        parameter_results = ranked.parameter_results;
        top_candidates = ranked.top_candidates;
        rejected_parameter_sets = ranked.rejected_parameter_sets;
        warnings = unique (
            ("Research only. Not trading advice. No automated trading action."
              ∷ "Parameter sweep ranks research candidates only; it is not production approval."
              ∷ [])
            ++ (map limit_text limit_warnings
                ++ (only_if (ltb (length parameter_grid) (length grid)) truncated
                    ++ concat_all (map (λ r. r.warnings) results))));
      }

  -- `Math.round` of a number that is not negative.
  abbrev rounded : F → ℕ
  rounded x = N.floor (N.add x (N.dec 5 1))

  -- `weightedWinRate`, of the rate and the count of one side.
  unfoldable pub weighted_win_rate :
      (rate_of : ReplayMetrics F → Option F) (count_of : ReplayMetrics F → ℕ)
      → List (ReplayMetrics F)
      → Option F
  weighted_win_rate rate_of count_of metrics =
      let wins_of = λ (m : ReplayMetrics F).
        rounded (N.mul (get_or (rate_of m) (N.dec 0 0)) (N.dec (count_of m) 0)) in
      ratio (total (map wins_of metrics)) (total (map count_of metrics))

  -- The values that are present, finite and of positive weight.
  abbrev weighable : Option F × ℕ → Option (F × ℕ)
  weighable (none, count) = none
  weighable (some value, count) =
      if N.is_finite value then (if ltb 0 count then some (value, count) else none) else none

  unfoldable pub weighted_average : List (Option F × ℕ) → Option F
  weighted_average values =
      let finite = filter_map weighable values in
      let weight = total (map (λ p. p.1) finite) in
      let weigh = λ (sum_so_far : F) (p : F × ℕ). N.add sum_so_far (N.mul p.0 (N.dec p.1 0)) in
      if ltb 0 weight
      then some (N.to_fixed 6 (N.div (foldl weigh (N.dec 0 0) finite) (N.dec weight 0)))
      else none

  -- `Math.max(...values)` of at least one value
  abbrev pub largest_of : List F → Option F
  largest_of [] = none
  largest_of (x ∷ xs) = some (foldl N.largest x xs)

  unfoldable pub aggregate_replay_metrics :
      ReplaySymbolFilter
      → ReplayWindow ℕ
      → List (ReplayMetrics F)
      → (checked_at : ℕ) → List String
      → ReplayMetrics F
  unfolding approximate_evaluated_count weighted_win_rate weighted_average
  aggregate_replay_metrics symbol window metrics checked_at warnings =
      let count = λ (of : ReplayMetrics F → ℕ). total_of of metrics in
      let wins = count (λ m. m.win_count) in
      let losses = count (λ m. m.loss_count) in
      let actionable = count (λ m. m.actionable_count) in
      let evaluated = count approximate_evaluated_count in
      let finite_pnl = finite_of (map (λ m. m.cumulative_theoretical_pnl) metrics) in
      let finite_drawdown = finite_of (map (λ m. m.max_drawdown) metrics) in
      record {
        symbol = symbol;
        window = window;
        sample_count = count (λ m. m.sample_count);
        actionable_count = actionable;
        win_count = wins;
        loss_count = losses;
        pending_count = count (λ m. m.pending_count);
        unresolved_count = count (λ m. m.unresolved_count);
        rejected_count = count (λ m. m.rejected_count);
        no_signal_count = count (λ m. m.no_signal_count);
        win_rate = ratio wins (wins + losses);
        long_yes_count = count (λ m. m.long_yes_count);
        long_yes_win_rate =
            weighted_win_rate (λ m. m.long_yes_win_rate) (λ m. m.long_yes_count) metrics;
        long_no_count = count (λ m. m.long_no_count);
        long_no_win_rate =
            weighted_win_rate (λ m. m.long_no_win_rate) (λ m. m.long_no_count) metrics;
        coverage_rate = ratio actionable evaluated;
        rejection_rate = ratio (count (λ m. m.rejected_count)) evaluated;
        pending_rate = ratio (count (λ m. m.pending_count)) evaluated;
        average_edge = weighted_average (map (λ m. (m.average_edge, m.actionable_count)) metrics);
        average_confidence =
            weighted_average (map (λ m. (m.average_confidence, m.actionable_count)) metrics);
        average_theoretical_pnl =
            if is_empty finite_pnl
            then none
            else some (N.to_fixed 6 (N.div (sum finite_pnl) (N.dec (length finite_pnl) 0)));
        cumulative_theoretical_pnl =
            if is_empty finite_pnl then none else some (N.to_fixed 6 (sum finite_pnl));
        max_drawdown = Option.map (N.to_fixed 6) (largest_of finite_drawdown);
        warnings = unique (warnings ++ concat_all (map (λ m. m.warnings) metrics));
        checked_at = checked_at;
      }
