-- ===== src/EventReplay/Metrics/Counts.antt =====
-- How the counts of a replay's figures hang together.
use event_probability_termin.Base.{
  ℕ, ◌+◌, ◌≡◌, ◌↔◌, none, List, [], ◌∷◌, map, arith, length, filter, All, Option, String,
  length-map,
}
use event_probability_termin.Base.Number.{Number}
use event_probability_termin.EventReplay.{
  FairValueSignalSide, ReplayOutcomeStatus, ReplayTradeLikeResult, LabelReplayOutcomeInput,
  ReplayWindow,
}
use event_probability_termin.EventReplay.Labels.{
  label_replay_outcome, label_expired, reconstruct, build_replay_trade_like_result, is_decided,
}
use event_probability_termin.EventReplay.Metrics.{
  ReplaySymbolFilter, with_status, on_side, count_status, is_actionable, ratio,
  compute_replay_metrics,
}

module _ {F : Type 0} ⦃N : Number F⦄ where
  -- A result as the replay makes it of a signal: labelled, and then valued.
  abbrev pub judged : LabelReplayOutcomeInput F × Option F → ReplayTradeLikeResult F
  judged (input, market_no_price) = build_replay_trade_like_result (record {
    signal = input.signal;
    outcome = label_replay_outcome input;
    market_no_price = market_no_price;
  })

  abbrev pub IsJudged : ReplayTradeLikeResult F → Type 0
  IsJudged r =
      (r.counted_in_win_rate ≡ is_decided r.outcome.status)
      × ((r.outcome.status ≡ ReplayOutcomeStatus.no_signal)
          ↔ (r.signal.side ≡ FairValueSignalSide.no_signal))
      × ((r.outcome.status ≡ ReplayOutcomeStatus.rejected)
          ↔ (r.signal.side ≡ FairValueSignalSide.rejected))

  judged-IsJudged : (p : LabelReplayOutcomeInput F × Option F) → IsJudged (judged p)
  unfolding label_replay_outcome label_expired reconstruct build_replay_trade_like_result
  judged-IsJudged (input, price) = ground arith

  All-judged :
      (inputs : List (LabelReplayOutcomeInput F × Option F)) → All IsJudged (map judged inputs)
  All-judged [] = tt
  All-judged (p ∷ ps) = (judged-IsJudged p, All-judged ps)

  -- The counts as `computeReplayMetrics` takes them.
  abbrev CountsAgree : List (ReplayTradeLikeResult F) → Type 0
  CountsAgree results =
      let completed = filter (λ r. r.counted_in_win_rate) results in
      let wins = length (with_status ReplayOutcomeStatus.win completed) in
      let losses = length (with_status ReplayOutcomeStatus.loss completed) in
      let pending = count_status ReplayOutcomeStatus.pending results in
      let unresolved = count_status ReplayOutcomeStatus.unresolved results in
      let actionable = length (filter is_actionable results) in
      (length completed ≡ wins + losses)
      × (length (on_side FairValueSignalSide.long_yes completed)
            + length (on_side FairValueSignalSide.long_no completed)
          ≡ wins + losses)
      × (actionable ≡ wins + losses + pending + unresolved)
      × (length results
          ≡ actionable
            + count_status ReplayOutcomeStatus.rejected results
            + count_status ReplayOutcomeStatus.no_signal results)

  counts_agree :
      (results : List (ReplayTradeLikeResult F)) → All IsJudged results → CountsAgree results
  unfolding is_actionable
  counts_agree [] h = ground arith
  counts_agree (r ∷ rs) (j, h) = ground (arith, counts_agree rs h)

  ratio-none : (n d : ℕ) → (ratio {F = F} n d ≡ none) ↔ (d ≡ 0)
  unfolding ratio
  ratio-none n d = ground arith

  -- In the figures over labelled signals the samples are the wins and losses, and each is on one of
  -- the two sides; the actionable signals are the samples and those pending and unresolved; with the
  -- rejected ones and those of no signal they are all signals; and the win rate is null exactly
  -- without a sample.
  pub replay_metrics_lem :
      (inputs : List (LabelReplayOutcomeInput F × Option F)) (symbol : ReplaySymbolFilter)
      (window : ReplayWindow ℕ) (checked_at : ℕ) (warnings : List String)
      → let m = compute_replay_metrics (record {
        symbol = symbol;
        window = window;
        results = map judged inputs;
        checked_at = checked_at;
        warnings = warnings;
      }) in
        (m.sample_count ≡ m.win_count + m.loss_count)
        × (m.sample_count ≡ m.long_yes_count + m.long_no_count)
        × (m.actionable_count ≡ m.sample_count + m.pending_count + m.unresolved_count)
        × (length inputs ≡ m.actionable_count + m.rejected_count + m.no_signal_count)
        × ((m.win_rate ≡ none) ↔ (m.sample_count ≡ 0))
  unfolding compute_replay_metrics
  replay_metrics_lem inputs symbol window checked_at warnings =
      let results = map judged inputs in
      let (samples, sides, actionable, all) = counts_agree results (All-judged inputs) in
      (
        samples,
        omega (arith, samples, sides),
        omega (arith, samples, actionable),
        omega (arith, all, length-map judged inputs),
        ground (arith, samples, ratio-none _ _),
      )
