-- ===== src/StrategyLab/Runs.antt =====
-- The theorems on the ranking, the sweep and the walk-forward validation at concrete replays.
use event_probability_termin.Base.{
  Bool, ℕ, zero, arith, ◌+◌, ◌*◌, ◌≤◌, ◌≡◌, refl, true, none, some, Option, List, [], ◌∷◌, map,
  length, All, not, is_empty, IsSortedBy, filter, ◌↔◌,
}
use mathlib.Core.Option
use event_probability_termin.Base.Int.{pos}
use event_probability_termin.Base.Fixed.{Fixed, fixed_number, Fixed-IsOrdered}
use event_probability_termin.Market.{OhlcvInterval, DataSourceType}
use event_probability_termin.StrategyLab.{StrategyParameterSet}
use event_probability_termin.EventReplay.{ReplayWindow, ReplayWindowId}
use event_probability_termin.EventReplay.Windows.{WindowRequest}
use event_probability_termin.EventReplay.Metrics.{ReplaySymbolFilter, ReplayMetrics}
use event_probability_termin.StrategyLab.Ranking.{
  ParameterSweepResult, WalkForwardWindow, rank_strategy_parameter_results,
}
use event_probability_termin.StrategyLab.Ranking.Order.{
  IsSound, ranking-IsSortedBy, top_candidates-AreSound,
}
use event_probability_termin.StrategyLab.Sweep.{
  SweepContext, RunSignalReplayInput, RunSignalReplayOutput, run_replay_for_parameter,
}
use event_probability_termin.StrategyLab.Sweep.Pool.{
  run_pool, all_returned, worker_count, claim, resume, start_workers,
}
use event_probability_termin.StrategyLab.Sweep.Pool.Refines.{pool_refines_map}
use event_probability_termin.StrategyLab.Sweep.Pool.Ends.{pool_ends}
use event_probability_termin.StrategyLab.WalkForward.{
  WalkForwardContext, build_rolling_windows, to_replay_window, select_on_train, run_window,
}
use event_probability_termin.StrategyLab.WalkForward.Rolling.{
  IsWithin, TestsFollow, rolling_windows-AreWithin,
}
use event_probability_termin.StrategyLab.WalkForward.Blind.{selection-blind}

-- A hundredth is a million of the smallest parts.
abbrev hundredths : ℕ → Fixed
hundredths n = pos (n * 1_000_000)

abbrev set : ℕ → StrategyParameterSet Fixed
set edge = record {
  id = record {
    interval = OhlcvInterval.m5;
    edge = hundredths (edge * 100);
    spread = hundredths 8;
    lookback = hundredths 6000;
    confidence = hundredths 30;
    fee = hundredths 0;
    slippage = hundredths 2500;
  };
  interval = OhlcvInterval.m5;
  min_edge_bps = hundredths (edge * 100);
  max_spread = hundredths 8;
  volatility_lookback_candles = hundredths 6000;
  min_confidence = hundredths 30;
  min_sample_count = hundredths 300;
  fees_bps = hundredths 0;
  slippage_bps = hundredths 2500;
  notes = [];
}

abbrev day : ReplayWindow ℕ
day = record { id = ReplayWindowId.d1; start_time = 0; end_time = 86_400_000; label = "" }

-- The figures of a replay with so many wins among 24 samples.
abbrev figures : ℕ → ReplayMetrics Fixed
figures wins = record {
  symbol = ReplaySymbolFilter.all_symbols;
  window = day;
  sample_count = 24;
  actionable_count = 24;
  win_count = wins;
  loss_count = 24;
  pending_count = 0;
  unresolved_count = 0;
  rejected_count = 0;
  no_signal_count = 0;
  win_rate = some (hundredths (wins * 4));
  long_yes_count = 24;
  long_yes_win_rate = none;
  long_no_count = 0;
  long_no_win_rate = none;
  coverage_rate = some (hundredths 100);
  rejection_rate = none;
  pending_rate = none;
  average_edge = none;
  average_confidence = none;
  average_theoretical_pnl = none;
  cumulative_theoretical_pnl = some (hundredths wins);
  max_drawdown = none;
  warnings = [];
  checked_at = 0;
}

abbrev runner : RunSignalReplayInput Fixed → RunSignalReplayOutput Fixed
runner request = record {
  metrics = figures 15;
  source_type = DataSourceType.fixture;
  warnings = [];
}

abbrev sweep : SweepContext Fixed
sweep = record {
  symbol = ReplaySymbolFilter.all_symbols;
  window = WindowRequest.named ReplayWindowId.d1;
  use_mock = some true;
  replay_runner = runner;
}

abbrev results : List (ParameterSweepResult Fixed)
results = map (run_replay_for_parameter sweep) (set 1 ∷ set 2 ∷ [])

ranking-IsSortedBy_example :
    let ranked = rank_strategy_parameter_results results [] (some 1) in
    ((p : StrategyParameterSet Fixed → ReplayMetrics Fixed → Fixed → Bool)
      → length (filter (λ r. p r.parameter_set r.metrics r.score) ranked.parameter_results)
        ≡ length (filter (λ r. p r.parameter_set r.metrics r.score) results))
    × (map (λ r. r.rank) ranked.parameter_results ≡ 1 ∷ 2 ∷ [])
    × IsSortedBy (λ r q. fixed_number.lt q.score r.score) ranked.parameter_results
    × (length ranked.top_candidates ≤ 1)
ranking-IsSortedBy_example = ranking-IsSortedBy Fixed-IsOrdered.lt_asymm results [] (some 1)

top_candidates-AreSound_example :
    let ranked = rank_strategy_parameter_results results [] (some 1) in
    All (IsSound []) ranked.top_candidates
    × All (λ r. not (is_empty r.rejection_reasons) ≡ true) ranked.rejected_parameter_sets
    × (length (filter (λ r. is_empty r.rejection_reasons) ranked.parameter_results)
          + length ranked.rejected_parameter_sets
        ≡ length ranked.parameter_results)
top_candidates-AreSound_example = top_candidates-AreSound results [] (some 1)

abbrev values : List ℕ
values = 7 ∷ 8 ∷ 9 ∷ []

abbrev tenfold : ℕ → ℕ
tenfold n = n * 10

-- Two workers over three values, of which the second comes back first and then again.
pool_refines_map_example : (run_pool tenfold values 2 (1 ∷ 1 ∷ 0 ∷ [])).results 2 ≡ some 90
unfolding run_pool resume claim start_workers worker_count
pool_refines_map_example = pool_refines_map tenfold values 2 (1 ∷ 1 ∷ 0 ∷ []) (omega arith) refl 2

pool_ends_example :
    (3 ≤ length values)
    × ((all_returned 2 (run_pool tenfold values 2 (1 ∷ 1 ∷ 0 ∷ [])) ≡ true) ↔ (3 ≡ length values))
unfolding run_pool resume claim start_workers worker_count
pool_ends_example =
    pool_ends tenfold values 2 (1 ∷ 1 ∷ 0 ∷ []) (omega arith) (refl, (refl, (refl, tt)))

rolling_windows-AreWithin_example :
    let windows = build_rolling_windows day (hundredths 50) (hundredths 25) in
    All (IsWithin 0 86_400_000) windows × TestsFollow windows × (length windows ≤ 12)
rolling_windows-AreWithin_example = rolling_windows-AreWithin day (hundredths 50) (hundredths 25)

abbrev context : WalkForwardContext Fixed
context = record {
  symbol = ReplaySymbolFilter.all_symbols;
  total_window = ReplayWindowId.d1;
  candidates = set 1 ∷ set 2 ∷ [];
  train_window_ratio = none;
  test_window_ratio = none;
  use_mock = some true;
  replay_runner = runner;
}

abbrev first_window : WalkForwardWindow
first_window = record {
  id = 1;
  train_start = 0;
  train_end = 43_200_000;
  test_start = 43_200_000;
  test_end = 64_800_000;
  train_sample_count = 0;
  test_sample_count = 0;
}

-- A runner that answers otherwise for all spans but those from the start of the day.
abbrev other_answer : Option ℕ → ReplayMetrics Fixed
other_answer (some zero) = figures 15
other_answer _ = figures 3

abbrev other_runner : RunSignalReplayInput Fixed → RunSignalReplayOutput Fixed
other_runner request = record {
  metrics = elim request.window [
    | WindowRequest.named id ↦ figures 3
    | WindowRequest.given window ↦ other_answer window.start_time
  ];
  source_type = DataSourceType.fixture;
  warnings = [];
}

selection-blind_example :
    let context' = record context { replay_runner = other_runner } in
    (select_on_train (λ n. "1") context first_window
      ≡ select_on_train (λ n. "1") context' first_window)
    × (Option.map (λ r. r.parameter_set) (run_window (λ n. "1") context first_window)
        ≡ Option.map (λ r. r.parameter_set) (run_window (λ n. "1") context' first_window))
unfolding to_replay_window
selection-blind_example =
    selection-blind (λ n. "1") context first_window other_runner
      (λ request span is_given is_start is_end. rw (is_given, is_start) refl)
