-- ===== src/StrategyLab/WalkForward.antt =====
-- packages/research-signals/src/strategy-lab/walk-forward.ts: parameter sets are selected on a train
-- window and tried on the test window that follows it.
pub mod Rolling
pub mod Blind
use mathlib.Core.Option
use mathlib.Core.List.{filter_map}
use event_probability_termin.Base.{
  ℕ, zero, suc, ◌+◌, ◌-◌, ◌*◌, ◌⊎◌, inl, inr, Option, none, some, Bool, false, not, ◌&&◌, ◌||◌,
  List, [], ◌∷◌, ◌++◌, map, String, ltb, leb, ◌==◌, if◌then◌else◌, get_or, or_else, filter, length,
  is_empty, first?, only_if, sort, unique,
}
use event_probability_termin.Base.Number.{Number}
use event_probability_termin.StrategyLab.{StrategyParameterSet}
use event_probability_termin.StrategyLab.Ranking.{
  StrategyParameterOverfitRisk, ParameterSweepResult, WalkForwardWindow, WalkForwardDegradation,
  WalkForwardResult, is_high, clamp, round6, count_below, at_least, same_id, has_negative_pnl,
  rank_strategy_parameter_results,
}
use event_probability_termin.StrategyLab.Sweep.{
  ReplayRunner, SweepContext, run_replay_for_parameter, aggregate_replay_metrics, concat_all, ◌<>◌,
}
use event_probability_termin.EventReplay.{ReplayWindow, ReplayWindowId}
use event_probability_termin.EventReplay.Windows.{WindowRequest, WindowError, resolve_replay_window}
use event_probability_termin.EventReplay.Metrics.{ReplaySymbolFilter, ReplayMetrics}

pub record SelectedWindowResult (F : Type 0) : Type 0 where
  pub parameter_set : StrategyParameterSet F
  pub window : WalkForwardWindow
  pub train_metrics : ReplayMetrics F
  pub test_metrics : ReplayMetrics F
  pub train_result : ParameterSweepResult F
  pub test_result : ParameterSweepResult F

-- The loop of `buildRollingWindows` from `index` on, with so many rounds left.
unfoldable pub rolling_windows :
    (end_ms train_ms test_ms rounds index cursor : ℕ) → List WalkForwardWindow
rolling_windows end_ms train_ms test_ms zero index cursor = []
rolling_windows end_ms train_ms test_ms (suc rounds) index cursor =
    let train_end = cursor + train_ms in
    let test_end = train_end + test_ms in
    let rest = rolling_windows end_ms train_ms test_ms rounds (suc index) (cursor + test_ms) in
    if ltb end_ms test_end || leb train_end cursor || leb test_end train_end
    then []
    else record {
      id = suc index;
      train_start = cursor;
      train_end = train_end;
      test_start = train_end;
      test_end = test_end;
      train_sample_count = 0;
      test_sample_count = 0;
    }
      ∷ rest

-- `toReplayWindow`, with `part` the word `Train` or `Test`.
unfoldable pub to_replay_window :
    (decimal : ℕ → String) → (id start_time end_time : ℕ) (part : String) → ReplayWindow ℕ
to_replay_window decimal id start_time end_time part = record {
  id = ReplayWindowId.custom;
  start_time = start_time;
  end_time = end_time;
  label = "wf-" <> decimal id <> " " <> part;
}

-- A window as a request for a replay.
abbrev pub as_request : ReplayWindow ℕ → WindowRequest
as_request window = WindowRequest.given (record {
  id = window.id;
  start_time = some window.start_time;
  end_time = some window.end_time;
  label = window.label;
})

unfoldable pub aggregate_window : List WalkForwardWindow → ReplayWindow ℕ
aggregate_window windows =
    let start = get_or (first? (sort (λ a b. ltb a b) (map (λ w. w.train_start) windows))) 0 in
    record {
      id = ReplayWindowId.custom;
      start_time = start;
      end_time = get_or (first? (sort (λ a b. ltb b a) (map (λ w. w.test_end) windows))) start;
      label = "Walk-forward aggregate";
    }

module _ {F : Type 0} ⦃N : Number F⦄ where
  -- The ratios are taken to be numbers: of `NaN` the source throws, where it prints a time.
  unfoldable pub build_rolling_windows :
      ReplayWindow ℕ → (train_window_ratio test_window_ratio : F) → List WalkForwardWindow
  unfolding rolling_windows clamp
  build_rolling_windows window train_window_ratio test_window_ratio =
      let total_ms = window.end_time - window.start_time in
      let share = λ (ratio : F). N.floor (N.mul (N.dec total_ms 0) ratio) in
      if leb window.end_time window.start_time
      then []
      else rolling_windows window.end_time
          (share (clamp train_window_ratio (N.dec 2 1) (N.dec 8 1)))
          (share (clamp test_window_ratio (N.dec 1 1) (N.dec 5 1))) 12 0 window.start_time

  -- `metrics.winRate !== null && …`
  unfoldable pub passed_out_of_sample_window : ReplayMetrics F → (min_sample_count : F) → Bool
  passed_out_of_sample_window metrics min_sample_count = elim metrics.win_rate [
    | none ↦ false
    | some rate ↦
        not (count_below metrics.actionable_count min_sample_count)
        && at_least rate (N.dec 5 1)
        && at_least (get_or metrics.cumulative_theoretical_pnl (N.neg (N.dec 1 0))) (N.dec 0 0)
  ]

  -- `train.winRate !== null && test.winRate !== null && train.winRate >= 0.7 && test.winRate < 0.5`
  abbrev pub fell_off : ReplayMetrics F → ReplayMetrics F → Bool
  fell_off train test =
      let good : Bool = elim train.win_rate [
        | none ↦ false
        | some rate ↦ at_least rate (N.dec 7 1)
      ] in
      let bad : Bool = elim test.win_rate [ none ↦ false | some rate ↦ N.lt rate (N.dec 5 1) ] in
      good && bad

  abbrev pub turned_to_loss : ReplayMetrics F → ReplayMetrics F → Bool
  turned_to_loss train test =
      N.lt (N.dec 0 0) (get_or train.cumulative_theoretical_pnl (N.dec 0 0))
      && has_negative_pnl test

  unfoldable pub walk_forward_overfit_risk :
      ReplayMetrics F
      → ReplayMetrics F
      → (passed_windows total_windows : ℕ) (min_sample_count : F) → StrategyParameterOverfitRisk
  walk_forward_overfit_risk train test passed_windows total_windows min_sample_count =
      let train_low = count_below train.sample_count min_sample_count in
      let test_low = count_below test.sample_count min_sample_count in
      if train_low && test_low
      then StrategyParameterOverfitRisk.unknown
      else if test_low
      then StrategyParameterOverfitRisk.medium
      else if fell_off train test
      then StrategyParameterOverfitRisk.high
      else if turned_to_loss train test
      then StrategyParameterOverfitRisk.high
      else if ltb (passed_windows * 2) total_windows
      then StrategyParameterOverfitRisk.high
      else if ltb passed_windows total_windows
      then StrategyParameterOverfitRisk.medium
      else StrategyParameterOverfitRisk.low

  unfoldable pub walk_forward_warnings :
      ReplayMetrics F
      → ReplayMetrics F
      → StrategyParameterOverfitRisk
      → (consistency_score min_sample_count : F) → List String
  walk_forward_warnings train test overfit_risk consistency_score min_sample_count = unique (
      (train.warnings ++ test.warnings)
      ++ (only_if
            (count_below train.sample_count min_sample_count
              || count_below test.sample_count min_sample_count)
            "LOW_WALK_FORWARD_SAMPLE"
          ++ (only_if (is_high overfit_risk) "WALK_FORWARD_HIGH_OVERFIT_RISK"
              ++ only_if (N.lt consistency_score (N.dec 5 1)) "LOW_WALK_FORWARD_CONSISTENCY")))

  unfoldable pub delta : (train test : Option F) → Option F
  delta (some train) (some test) = some (round6 (N.sub test train))
  delta _ _ = none

  -- A fall, at most `cap`, where the delta is negative.
  abbrev penalty : (cap : F) → (F → F) → Option F → F
  penalty cap size none = N.dec 0 0
  penalty cap size (some change) =
      if N.lt change (N.dec 0 0) then N.smallest cap (size (N.abs change)) else N.dec 0 0

  unfoldable pub consistency : (passed_windows total_windows : ℕ) → WalkForwardDegradation F → F
  unfolding clamp
  consistency passed_windows total_windows degradation =
      let base = N.div (N.dec passed_windows 0) (N.dec total_windows 0) in
      let win_rate_penalty = penalty (N.dec 3 1) (λ x. x) degradation.win_rate_delta in
      let pnl_penalty = penalty (N.dec 2 1) (λ x. N.div x (N.dec 3 0)) degradation.pnl_delta in
      if total_windows == 0
      then N.dec 0 0
      else round6 (clamp (N.sub (N.sub base win_rate_penalty) pnl_penalty) (N.dec 0 0) (N.dec 1 0))

  -- `byParameter`: the groups in the order in which their ids first come up.
  abbrev pub add_to_groups :
      SelectedWindowResult F
      → List (List (SelectedWindowResult F))
      → List (List (SelectedWindowResult F))
  add_to_groups r [] = (r ∷ []) ∷ []
  add_to_groups r ([] ∷ groups) = [] ∷ add_to_groups r groups
  add_to_groups r ((g ∷ group) ∷ groups) =
      if same_id g.parameter_set.id r.parameter_set.id
      then ((g ∷ group) ++ (r ∷ [])) ∷ groups
      else (g ∷ group) ∷ add_to_groups r groups

  abbrev pub group_by_parameter :
      List (List (SelectedWindowResult F))
      → List (SelectedWindowResult F)
      → List (List (SelectedWindowResult F))
  group_by_parameter groups [] = groups
  group_by_parameter groups (r ∷ rs) = group_by_parameter (add_to_groups r groups) rs

  -- The result of one group, which begins with `first`.
  unfoldable pub walk_forward_result :
      ReplaySymbolFilter
      → (checked_at : ℕ) → SelectedWindowResult F
      → List (SelectedWindowResult F)
      → WalkForwardResult F
  unfolding aggregate_window passed_out_of_sample_window walk_forward_overfit_risk
      walk_forward_warnings delta consistency
  walk_forward_result symbol checked_at first rest =
      let group = first ∷ rest in
      let set = first.parameter_set in
      let windows = map (λ r. r.window) group in
      let window = aggregate_window windows in
      let train =
        aggregate_replay_metrics symbol window (map (λ r. r.train_metrics) group) checked_at [] in
      let test =
        aggregate_replay_metrics symbol window (map (λ r. r.test_metrics) group) checked_at [] in
      let passed =
        length
          (filter (λ r. passed_out_of_sample_window r.test_metrics set.min_sample_count) group) in
      let degradation : WalkForwardDegradation F = record {
        win_rate_delta = delta train.win_rate test.win_rate;
        pnl_delta = delta train.cumulative_theoretical_pnl test.cumulative_theoretical_pnl;
        max_drawdown_delta = delta train.max_drawdown test.max_drawdown;
        coverage_delta = delta train.coverage_rate test.coverage_rate;
      } in
      let consistency_score = consistency passed (length group) degradation in
      let overfit_risk =
        walk_forward_overfit_risk train test passed (length group) set.min_sample_count in
      record {
        parameter_set = set;
        windows = windows;
        aggregate_train_metrics = train;
        aggregate_test_metrics = test;
        degradation = degradation;
        stability = record {
          passed_windows = passed;
          failed_windows = length group - passed;
          consistency_score = consistency_score;
        };
        overfit_risk = overfit_risk;
        warnings =
            walk_forward_warnings train test overfit_risk consistency_score set.min_sample_count;
      }

  -- No group is empty.
  unfoldable pub build_walk_forward_results :
      ReplaySymbolFilter
      → (checked_at : ℕ) → List (SelectedWindowResult F)
      → List (WalkForwardResult F)
  unfolding walk_forward_result
  build_walk_forward_results symbol checked_at selected =
      filter_map
        (λ group. elim group [
          | [] ↦ none
          | first ∷ rest ↦ some (walk_forward_result symbol checked_at first rest)
        ])
        (group_by_parameter [] selected)

pub record WalkForwardContext (F : Type 0) : Type 0 where
  pub symbol : ReplaySymbolFilter
  pub total_window : ReplayWindowId
  pub candidates : List (StrategyParameterSet F)
  pub train_window_ratio : Option F
  pub test_window_ratio : Option F
  pub use_mock : Option Bool
  pub replay_runner : ReplayRunner F

pub record RunWalkForwardValidationOutput (F : Type 0) : Type 0 where
  pub walk_forward_results : List (WalkForwardResult F)
  pub warnings : List String
  pub windows : List WalkForwardWindow

-- The first result without a reason against it, or the first of all.
unfoldable pub selected_of :
    {F : Type 0} ⦃N : Number F⦄ → List (ParameterSweepResult F) → Option (ParameterSweepResult F)
unfolding rank_strategy_parameter_results
selected_of results =
    let ranked = rank_strategy_parameter_results results [] none in
    or_else (first? ranked.top_candidates) (first? ranked.parameter_results)

module _ {F : Type 0} ⦃N : Number F⦄ (decimal : ℕ → String) (context : WalkForwardContext F) where
  abbrev pub sweep_of : ReplayWindow ℕ → SweepContext F
  sweep_of window = record {
    symbol = context.symbol;
    window = as_request window;
    use_mock = context.use_mock;
    replay_runner = context.replay_runner;
  }

  abbrev pub train_window : WalkForwardWindow → ReplayWindow ℕ
  train_window w = to_replay_window decimal w.id w.train_start w.train_end "Train"

  abbrev pub test_window : WalkForwardWindow → ReplayWindow ℕ
  test_window w = to_replay_window decimal w.id w.test_start w.test_end "Test"

  -- The best of the candidates on the train window.
  unfoldable pub select_on_train : WalkForwardWindow → Option (ParameterSweepResult F)
  unfolding run_replay_for_parameter selected_of to_replay_window
  select_on_train window =
      selected_of
        (map (run_replay_for_parameter (sweep_of (train_window window))) context.candidates)

  -- The selected set on the test window.
  unfoldable pub tried : WalkForwardWindow → ParameterSweepResult F → SelectedWindowResult F
  unfolding run_replay_for_parameter to_replay_window
  tried window train_result =
      let test_result =
        run_replay_for_parameter (sweep_of (test_window window)) train_result.parameter_set in
      record {
        parameter_set = train_result.parameter_set;
        window = record window {
          train_sample_count = train_result.metrics.sample_count;
          test_sample_count = test_result.metrics.sample_count;
        };
        train_metrics = train_result.metrics;
        test_metrics = test_result.metrics;
        train_result = train_result;
        test_result = test_result;
      }

  -- One round of the loop over the windows; null where nothing was selected.
  unfoldable pub run_window : WalkForwardWindow → Option (SelectedWindowResult F)
  unfolding select_on_train tried
  run_window window = Option.map (tried window) (select_on_train window)

  -- The text that is pushed for a window without a selection.
  abbrev unselected_warnings : WalkForwardWindow → List String
  unselected_warnings window = elim (run_window window) [
    | none ↦ ("NO_TRAIN_PARAMETER_SELECTED_wf-" <> decimal window.id) ∷ []
    | some result ↦ []
  ]

  abbrev opening_warnings : List String
  opening_warnings =
      "Walk-forward validation separates in-sample train windows from out-of-sample test windows."
      ∷ "Research only. Not trading advice. No automated trading action." ∷ []

  -- The validation over a window that was resolved.
  unfoldable pub validate_windows :
      (checked_at : ℕ) → ReplayWindow ℕ → RunWalkForwardValidationOutput F
  unfolding run_window build_rolling_windows build_walk_forward_results
  validate_windows checked_at total_window =
      let windows =
        build_rolling_windows total_window (get_or context.train_window_ratio (N.dec 5 1))
          (get_or context.test_window_ratio (N.dec 25 2)) in
      let selected = filter_map run_window windows in
      record {
        walk_forward_results = build_walk_forward_results context.symbol checked_at selected;
        warnings = unique (
            (opening_warnings
              ++ (only_if (ltb (length windows) 2) "INSUFFICIENT_WALK_FORWARD_WINDOWS"
                  ++ concat_all (map unselected_warnings windows)))
            ++ concat_all (map (λ r. r.train_result.warnings ++ r.test_result.warnings) selected));
        windows = map (λ r. r.window) selected;
      }

  -- `checked_at` is a date; the error is that of the window.
  unfoldable pub run_walk_forward_validation :
      (checked_at : ℕ) → WindowError ⊎ RunWalkForwardValidationOutput F
  unfolding validate_windows resolve_replay_window
  run_walk_forward_validation checked_at =
      let resolved =
        resolve_replay_window (WindowRequest.named context.total_window) (some checked_at) in
      let validated : WindowError ⊎ RunWalkForwardValidationOutput F = elim resolved [
        | inl error ↦ inl error
        | inr window ↦ inr (validate_windows checked_at window)
      ] in
      if is_empty context.candidates
      then inr (record {
        walk_forward_results = [];
        warnings = opening_warnings ++ ("NO_WALK_FORWARD_CANDIDATES" ∷ []);
        windows = [];
      })
      else validated
