-- ===== src/EventReplay/Metrics.antt =====
-- packages/research-signals/src/replay/metrics.ts: the figures over the results of a replay.
pub mod Counts
use mathlib.Core.List.{foldl, filter_map}
use event_probability_termin.Base.{
  ℕ, ◌+◌, Option, none, some, Bool, true, false, List, ◌++◌, map, String, ltb, ◌==◌, if◌then◌else◌,
  filter, length, is_empty, only_if, unique,
}
use event_probability_termin.Base.Number.{Number}
use event_probability_termin.Market.{SignalSymbol}
use event_probability_termin.EventReplay.{
  FairValueSignalSide, ReplayOutcomeStatus, ReplayTradeLikeResult, ReplayWindow,
}
use event_probability_termin.EventReplay.Labels.{is_long, round}

-- `SignalSymbol | "ALL"`
pub data ReplaySymbolFilter : Type 0 where
  one_symbol : SignalSymbol → ReplaySymbolFilter
  all_symbols : ReplaySymbolFilter

pub record ReplayMetrics (F : Type 0) : Type 0 where
  pub symbol : ReplaySymbolFilter
  pub window : ReplayWindow ℕ
  pub sample_count : ℕ
  pub actionable_count : ℕ
  pub win_count : ℕ
  pub loss_count : ℕ
  pub pending_count : ℕ
  pub unresolved_count : ℕ
  pub rejected_count : ℕ
  pub no_signal_count : ℕ
  pub win_rate : Option F
  pub long_yes_count : ℕ
  pub long_yes_win_rate : Option F
  pub long_no_count : ℕ
  pub long_no_win_rate : Option F
  pub coverage_rate : Option F
  pub rejection_rate : Option F
  pub pending_rate : Option F
  pub average_edge : Option F
  pub average_confidence : Option F
  pub average_theoretical_pnl : Option F
  pub cumulative_theoretical_pnl : Option F
  pub max_drawdown : Option F
  pub warnings : List String
  pub checked_at : ℕ

pub record ComputeMetricsInput (F : Type 0) : Type 0 where
  pub symbol : ReplaySymbolFilter
  pub window : ReplayWindow ℕ
  pub results : List (ReplayTradeLikeResult F)
  pub checked_at : ℕ
  pub warnings : List String

-- `status === …` and `side === …`
abbrev pub is_status : ReplayOutcomeStatus → ReplayOutcomeStatus → Bool
is_status ReplayOutcomeStatus.win ReplayOutcomeStatus.win = true
is_status ReplayOutcomeStatus.loss ReplayOutcomeStatus.loss = true
is_status ReplayOutcomeStatus.pending ReplayOutcomeStatus.pending = true
is_status ReplayOutcomeStatus.unresolved ReplayOutcomeStatus.unresolved = true
is_status ReplayOutcomeStatus.rejected ReplayOutcomeStatus.rejected = true
is_status ReplayOutcomeStatus.no_signal ReplayOutcomeStatus.no_signal = true
is_status _ _ = false

abbrev pub is_side : FairValueSignalSide → FairValueSignalSide → Bool
is_side FairValueSignalSide.long_yes FairValueSignalSide.long_yes = true
is_side FairValueSignalSide.long_no FairValueSignalSide.long_no = true
is_side FairValueSignalSide.no_signal FairValueSignalSide.no_signal = true
is_side FairValueSignalSide.rejected FairValueSignalSide.rejected = true
is_side _ _ = false

module _ {F : Type 0} where
  abbrev pub status_of : ReplayTradeLikeResult F → ReplayOutcomeStatus
  status_of result = result.outcome.status

  abbrev pub with_status :
      ReplayOutcomeStatus → List (ReplayTradeLikeResult F) → List (ReplayTradeLikeResult F)
  with_status status results = filter (λ r. is_status (status_of r) status) results

  abbrev pub on_side :
      FairValueSignalSide → List (ReplayTradeLikeResult F) → List (ReplayTradeLikeResult F)
  on_side side results = filter (λ r. is_side r.signal.side side) results

  abbrev pub count_status : ReplayOutcomeStatus → List (ReplayTradeLikeResult F) → ℕ
  count_status status results = length (with_status status results)

  unfoldable pub is_actionable : ReplayTradeLikeResult F → Bool
  is_actionable result = is_long result.signal.side

-- The three variables of the loop of `maxDrawdownFromPnl`.
pub record PnlCurve (F : Type 0) : Type 0 where
  pub cumulative : F
  pub peak : F
  pub drawdown : F

module _ {F : Type 0} ⦃N : Number F⦄ where
  -- `values.reduce((sum, value) => sum + value, 0)`
  abbrev pub sum : List F → F
  sum = foldl N.add (N.dec 0 0)

  unfoldable pub ratio : ℕ → ℕ → Option F
  ratio numerator denominator =
      if ltb 0 denominator
      then some (round (N.div (N.dec numerator 0) (N.dec denominator 0)))
      else none

  -- Those of the values that are present and finite.
  abbrev pub finite_of : List (Option F) → List F
  finite_of values = filter N.is_finite (filter_map (λ v. v) values)

  unfoldable pub average : List (Option F) → Option F
  average values =
      let finite = finite_of values in
      if is_empty finite then none else some (round (N.div (sum finite) (N.dec (length finite) 0)))

  unfoldable pub pnl_step : PnlCurve F → F → PnlCurve F
  pnl_step curve value =
      let cumulative = N.add curve.cumulative value in
      let peak = N.largest curve.peak cumulative in
      record {
        cumulative = cumulative;
        peak = peak;
        drawdown = N.largest curve.drawdown (N.sub peak cumulative);
      }

  unfoldable pub max_drawdown_from_pnl : List F → F
  unfolding pnl_step
  max_drawdown_from_pnl values =
      let start : PnlCurve F = record {
        cumulative = N.dec 0 0;
        peak = N.dec 0 0;
        drawdown = N.dec 0 0;
      } in
      (foldl pnl_step start values).drawdown

  unfoldable pub compute_replay_metrics : ComputeMetricsInput F → ReplayMetrics F
  unfolding is_actionable ratio average max_drawdown_from_pnl
  compute_replay_metrics input =
      let results = input.results in
      let total_evaluated = length results in
      let actionable = filter is_actionable results in
      let completed = filter (λ r. r.counted_in_win_rate) results in
      let wins = length (with_status ReplayOutcomeStatus.win completed) in
      let losses = length (with_status ReplayOutcomeStatus.loss completed) in
      let long_yes = on_side FairValueSignalSide.long_yes completed in
      let long_no = on_side FairValueSignalSide.long_no completed in
      let rejected = count_status ReplayOutcomeStatus.rejected results in
      let pending = count_status ReplayOutcomeStatus.pending results in
      let finite_pnls = finite_of (map (λ r. r.theoretical_pnl) results) in
      record {
        symbol = input.symbol;
        window = input.window;
        sample_count = length completed;
        actionable_count = length actionable;
        win_count = wins;
        loss_count = losses;
        pending_count = pending;
        unresolved_count = count_status ReplayOutcomeStatus.unresolved results;
        rejected_count = rejected;
        no_signal_count = count_status ReplayOutcomeStatus.no_signal results;
        win_rate = ratio wins (wins + losses);
        long_yes_count = length long_yes;
        long_yes_win_rate =
            ratio (length (with_status ReplayOutcomeStatus.win long_yes)) (length long_yes);
        long_no_count = length long_no;
        long_no_win_rate =
            ratio (length (with_status ReplayOutcomeStatus.win long_no)) (length long_no);
        coverage_rate = ratio (length actionable) total_evaluated;
        rejection_rate = ratio rejected total_evaluated;
        pending_rate = ratio pending total_evaluated;
        average_edge = average (map (λ r. r.signal.edge) actionable);
        average_confidence = average (map (λ r. some r.signal.confidence) actionable);
        average_theoretical_pnl = average (map some finite_pnls);
        cumulative_theoretical_pnl =
            if is_empty finite_pnls then none else some (round (sum finite_pnls));
        max_drawdown =
            if is_empty finite_pnls then none else some (round (max_drawdown_from_pnl finite_pnls));
        warnings = unique (
            input.warnings
            ++ only_if (ltb (length completed) 20) "LOW_SAMPLE_SIZE"
            ++ only_if (length actionable == 0) "NO_ACTIONABLE_REPLAY_SIGNALS"
            ++ only_if (length completed == 0) "NO_COMPLETED_REPLAY_SAMPLES");
        checked_at = input.checked_at;
      }
