-- ===== src/ShortWindow/Metrics/Counts.antt =====
-- How the counts of a replay's figures hang together.
use event_probability_termin.Base.{
  ℕ, ◌+◌, ◌≤◌, ◌≡◌, refl, ◌⊎◌, ◌↔◌, true, ◌||◌, none, List, [], ◌∷◌, arith, length, filter, All,
  zero, suc, inl, inr, leb, Bool-cases, String,
}
use event_probability_termin.Base.Number.{Number}
use event_probability_termin.Market.{SignalSymbol, Candle}
use event_probability_termin.ShortWindow.{
  ShortWindowInterval, ShortWindowEvent, ShortWindowSignalSide, ShortWindowContractRule,
}
use event_probability_termin.ShortWindow.Rules.{short_window_interval_ms}
use event_probability_termin.ShortWindow.Signal.{ShortWindowSignal}
use event_probability_termin.ShortWindow.Replay.{
  OutcomeStatus, ReplayResult, MetricsWindow, resolve_replay_result, replay_window, replay_from,
  replay_candles,
}
use event_probability_termin.ShortWindow.Metrics.{
  is_status, is_side, is_actionable, status_of, count_status, compute_short_window_metrics, ratio,
}

module _ {F : Type 0} ⦃N : Number F⦄ where
  -- A result as `resolveReplayResult` makes them.
  abbrev pub IsJudged : ReplayResult F → Type 0
  IsJudged r =
      ((r.outcome.counted_in_win_rate ≡ true)
        ↔ ((r.outcome.status ≡ OutcomeStatus.win) ⊎ (r.outcome.status ≡ OutcomeStatus.loss)))
      × ((r.outcome.status ≡ OutcomeStatus.wait) ↔ (r.signal.side ≡ ShortWindowSignalSide.wait))
      × ((r.outcome.status ≡ OutcomeStatus.rejected)
          ↔ (r.signal.side ≡ ShortWindowSignalSide.rejected))

  resolve_replay_result-IsJudged :
      (event : ShortWindowEvent F) (signal : ShortWindowSignal F) (candles : List (Candle F))
      (checked_at : ℕ)
      → IsJudged (resolve_replay_result event signal candles checked_at)
  unfolding resolve_replay_result
  resolve_replay_result-IsJudged event signal candles checked_at = ground arith

  replay_from-IsJudged :
      (candles : List (Candle F)) (checked_at : ℕ) (rule : ShortWindowContractRule)
      (end fuel cursor : ℕ)
      → All IsJudged (replay_from candles checked_at rule end fuel cursor)
  unfolding replay_from replay_window
  replay_from-IsJudged candles checked_at rule end zero cursor = tt
  replay_from-IsJudged candles checked_at rule end (suc fuel) cursor =
      let ms = short_window_interval_ms rule.interval in
      let rest = replay_from-IsJudged candles checked_at rule end fuel (cursor + ms) in
      elim (Bool-cases (leb (cursor + ms) end)) [
        | inl more ↦ rw more (resolve_replay_result-IsJudged _ _ candles checked_at, rest)
        | inr done ↦ rw done tt
      ]

  -- The results that a side or a status puts into a bin.
  abbrev either_count : ShortWindowSignalSide → OutcomeStatus → List (ReplayResult F) → ℕ
  either_count side status results =
      length (filter (λ r. is_side r.signal.side side || is_status (status_of r) status) results)

  -- Every result has one status; the waiting and rejected ones are those of that side; the counted
  -- ones are wins and losses; the actionable ones are the rest.
  abbrev pub CountsAgree : List (ReplayResult F) → Type 0
  CountsAgree results =
      let count = λ (status : OutcomeStatus). count_status status results in
      let decided = count OutcomeStatus.win + count OutcomeStatus.loss in
      let undecided = count OutcomeStatus.pending + count OutcomeStatus.unresolved in
      (length results
        ≡ decided + undecided + count OutcomeStatus.wait + count OutcomeStatus.rejected)
      × (either_count ShortWindowSignalSide.wait OutcomeStatus.wait results
          ≡ count OutcomeStatus.wait)
      × (either_count ShortWindowSignalSide.rejected OutcomeStatus.rejected results
          ≡ count OutcomeStatus.rejected)
      × (length (filter (λ r. r.outcome.counted_in_win_rate) results) ≡ decided)
      × (length (filter (λ r. is_actionable r.signal.side) results) ≡ decided + undecided)

  counts_agree : (results : List (ReplayResult F)) → All IsJudged results → CountsAgree results
  unfolding is_actionable
  counts_agree [] h = omega arith
  counts_agree (r ∷ rs) (j, h) = ground (arith, counts_agree rs h)

  ratio-none : (n d : ℕ) → (ratio {F = F} n d ≡ none) ↔ (d ≡ 0)
  unfolding ratio
  ratio-none n d = ground arith

  replay_candles-IsJudged :
      (candles : List (Candle F)) (window_start window_end checked_at : ℕ)
      (rule : ShortWindowContractRule)
      → All IsJudged (replay_candles candles window_start window_end checked_at rule)
  unfolding replay_candles
  replay_candles-IsJudged candles window_start window_end checked_at rule =
      replay_from-IsJudged candles checked_at rule window_end _ _

  -- In the figures of a replay every event is actionable, waiting or rejected, and only one of
  -- these; wins, losses and pending events are actionable ones; and the win rate is null exactly
  -- when there is no win and no loss.
  pub replay_counts :
      (candles : List (Candle F)) (window_start window_end checked_at : ℕ)
      (rule : ShortWindowContractRule) (symbol : SignalSymbol) (interval : ShortWindowInterval)
      (window : MetricsWindow) (warnings : List String)
      → let results = replay_candles candles window_start window_end checked_at rule in
        let m = compute_short_window_metrics symbol interval window results warnings in
        (m.total_events ≡ length results)
        × (m.total_events ≡ m.actionable_count + m.wait_count + m.rejected_count)
        × (m.win_count + m.loss_count + m.pending_count ≤ m.actionable_count)
        × ((m.win_rate ≡ none) ↔ (m.win_count + m.loss_count ≡ 0))
  unfolding compute_short_window_metrics
  replay_counts candles window_start window_end checked_at rule symbol interval window warnings =
      let results = replay_candles candles window_start window_end checked_at rule in
      let agree = counts_agree results (replay_candles-IsJudged candles _ _ checked_at rule) in
      let decided =
        count_status OutcomeStatus.win results + count_status OutcomeStatus.loss results in
      let (_, waiting, rejected, _, actionable) = agree in
      (
        refl,
        omega (arith, agree.0, waiting, rejected, actionable),
        omega (arith, actionable),
        ratio-none _ decided,
      )
