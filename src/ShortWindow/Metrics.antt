-- ===== src/ShortWindow/Metrics.antt =====
-- packages/research-signals/src/short-window/metrics.ts: the figures over a replay.
pub mod Drawdown
pub mod Counts
use mathlib.Core.List.{foldl, filter_map}
use event_probability_termin.Base.{
  ℕ, ◌+◌, Option, none, some, Bool, true, false, ◌||◌, List, [], ◌∷◌, ◌++◌, map, String, ltb,
  if◌then◌else◌, filter, length, is_empty, unique,
}
use event_probability_termin.Base.Int.{ℤ, pos, pos_part, add_ℤ, sub_ℤ, lt_ℤ}
use event_probability_termin.Base.Number.{Number}
use event_probability_termin.Market.{SignalSymbol}
use event_probability_termin.ShortWindow.{ShortWindowInterval, ShortWindowSignalSide}
use event_probability_termin.ShortWindow.Settlement.{sum}
use event_probability_termin.ShortWindow.Replay.{OutcomeStatus, ReplayResult, MetricsWindow}

pub record ShortWindowMetrics (F : Type 0) : Type 0 where
  pub symbol : SignalSymbol
  pub interval : ShortWindowInterval
  pub window : MetricsWindow
  pub total_events : ℕ
  pub actionable_count : ℕ
  pub win_count : ℕ
  pub loss_count : ℕ
  pub wait_count : ℕ
  pub rejected_count : ℕ
  pub pending_count : ℕ
  pub win_rate : Option F
  pub long_up_win_rate : Option F
  pub long_down_win_rate : Option F
  pub avg_confidence : Option F
  pub avg_distance_bps_at_signal : Option F
  pub max_drawdown : Option ℕ
  pub warnings : List String

-- `status === …` and `side === …`
abbrev pub is_status : OutcomeStatus → OutcomeStatus → Bool
is_status OutcomeStatus.win OutcomeStatus.win = true
is_status OutcomeStatus.loss OutcomeStatus.loss = true
is_status OutcomeStatus.wait OutcomeStatus.wait = true
is_status OutcomeStatus.rejected OutcomeStatus.rejected = true
is_status OutcomeStatus.pending OutcomeStatus.pending = true
is_status OutcomeStatus.unresolved OutcomeStatus.unresolved = true
is_status _ _ = false

abbrev pub is_side : ShortWindowSignalSide → ShortWindowSignalSide → Bool
is_side ShortWindowSignalSide.long_up ShortWindowSignalSide.long_up = true
is_side ShortWindowSignalSide.long_down ShortWindowSignalSide.long_down = true
is_side ShortWindowSignalSide.wait ShortWindowSignalSide.wait = true
is_side ShortWindowSignalSide.rejected ShortWindowSignalSide.rejected = true
is_side _ _ = false

unfoldable pub is_actionable : ShortWindowSignalSide → Bool
is_actionable side =
    is_side side ShortWindowSignalSide.long_up || is_side side ShortWindowSignalSide.long_down

-- `Math.max` of integers
abbrev max_ℤ : ℤ → ℤ → ℤ
max_ℤ a b = if lt_ℤ a b then b else a

-- The three variables of the loop of `maxDrawdown`, which hold whole numbers.
pub record Curve : Type 0 where
  pub equity : ℤ
  pub peak : ℤ
  pub drawdown : ℤ

unfoldable pub curve_step : Curve → OutcomeStatus → Curve
curve_step c status =
    let equity : ℤ = elim status [
      | OutcomeStatus.win ↦ add_ℤ c.equity (pos 1)
      | OutcomeStatus.loss ↦ sub_ℤ c.equity (pos 1)
      | _ ↦ c.equity
    ] in
    let peak = max_ℤ c.peak equity in
    record { equity = equity; peak = peak; drawdown = max_ℤ c.drawdown (sub_ℤ peak equity) }

module _ {F : Type 0} where
  abbrev pub status_of : ReplayResult F → OutcomeStatus
  status_of result = result.outcome.status

  abbrev pub count_status : OutcomeStatus → List (ReplayResult F) → ℕ
  count_status status results = length (filter (λ r. is_status (status_of r) status) results)

  -- The deepest fall of the curve of wins less losses; null with no results.
  unfoldable pub max_drawdown : List (ReplayResult F) → Option ℕ
  unfolding curve_step
  max_drawdown results =
      let start : Curve = record { equity = pos 0; peak = pos 0; drawdown = pos 0 } in
      let final = foldl curve_step start (map status_of results) in
      if is_empty results then none else some (pos_part final.drawdown)

module _ {F : Type 0} ⦃N : Number F⦄ where
  unfoldable pub ratio : ℕ → ℕ → Option F
  ratio numerator denominator =
      if ltb 0 denominator
      then some (N.to_fixed 6 (N.div (N.dec numerator 0) (N.dec denominator 0)))
      else none

  unfoldable pub average : List F → Option F
  average values =
      if is_empty values
      then none
      else some (N.to_fixed 6 (N.div (sum values) (N.dec (length values) 0)))

  unfoldable pub side_win_rate : List (ReplayResult F) → Option F
  unfolding ratio
  side_win_rate results =
      let wins = count_status OutcomeStatus.win results in
      ratio wins (wins + count_status OutcomeStatus.loss results)

  unfoldable pub compute_short_window_metrics :
      SignalSymbol
      → ShortWindowInterval
      → MetricsWindow
      → List (ReplayResult F)
      → List String
      → ShortWindowMetrics F
  unfolding is_actionable
  compute_short_window_metrics symbol interval window results warnings =
      let win_count = count_status OutcomeStatus.win results in
      let loss_count = count_status OutcomeStatus.loss results in
      let actionable = filter (λ r. is_actionable r.signal.side) results in
      let counted = filter (λ r. r.outcome.counted_in_win_rate) results in
      let on_side =
        λ (side : ShortWindowSignalSide). filter (λ r. is_side r.signal.side side) counted in
      let either = λ (side : ShortWindowSignalSide) (status : OutcomeStatus).
        length
          (filter (λ r. is_side r.signal.side side || is_status (status_of r) status) results) in
      record {
        symbol = symbol;
        interval = interval;
        window = window;
        total_events = length results;
        actionable_count = length actionable;
        win_count = win_count;
        loss_count = loss_count;
        wait_count = either ShortWindowSignalSide.wait OutcomeStatus.wait;
        rejected_count = either ShortWindowSignalSide.rejected OutcomeStatus.rejected;
        pending_count = count_status OutcomeStatus.pending results;
        win_rate = ratio win_count (win_count + loss_count);
        long_up_win_rate = side_win_rate (on_side ShortWindowSignalSide.long_up);
        long_down_win_rate = side_win_rate (on_side ShortWindowSignalSide.long_down);
        avg_confidence = average (map (λ r. r.signal.confidence) actionable);
        avg_distance_bps_at_signal = average (filter_map (λ r. r.signal.distance_bps) actionable);
        max_drawdown = max_drawdown counted;
        warnings = unique (
            warnings
            ++ (if ltb (length counted) 5 then "LOW_SAMPLE_SIZE" else "")
              ∷ "Proxy replay is not live venue performance and is not trading advice."
              ∷ []);
      }
