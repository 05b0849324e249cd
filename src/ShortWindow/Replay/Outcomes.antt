-- ===== src/ShortWindow/Replay/Outcomes.antt =====
-- How a signal of the past is judged.
use event_probability_termin.Base.{ℕ, ◌≤◌, ◌≡◌, ◌⊎◌, ◌↔◌, true, List, arith}
use event_probability_termin.Base.Number.{Number}
use event_probability_termin.Market.{Candle}
use event_probability_termin.ShortWindow.{ShortWindowEvent, ShortWindowSignalSide, ResolvedSide}
use event_probability_termin.ShortWindow.Settlement.{evaluate_short_window_rule_outcome}
use event_probability_termin.ShortWindow.Signal.{ShortWindowSignal}
use event_probability_termin.ShortWindow.Replay.{
  OutcomeStatus, ReplayOutcome, resolve_replay_result,
}

abbrev TookSide : ShortWindowSignalSide → Type 0
TookSide side = (side ≡ ShortWindowSignalSide.long_up) ⊎ (side ≡ ShortWindowSignalSide.long_down)

module _ {F : Type 0} ⦃N : Number F⦄ (event : ShortWindowEvent F) (signal : ShortWindowSignal F)
    (candles : List (Candle F)) (checked_at : ℕ) where
  abbrev outcome : ReplayOutcome F
  outcome = (resolve_replay_result event signal candles checked_at).outcome

  abbrev side_that_came : ResolvedSide
  side_that_came =
      (evaluate_short_window_rule_outcome event.rule event.start_time event.end_time
        event.start_reference_price candles).resolved_side

  -- A signal counts in the win rate exactly when it took a side, its window has ended, and the rule
  -- settles on UP or DOWN.
  pub counted_iff : (outcome.counted_in_win_rate ≡ true) ↔ (
      TookSide signal.side
      × (event.end_time ≤ checked_at)
      × ((side_that_came ≡ ResolvedSide.up) ⊎ (side_that_came ≡ ResolvedSide.down)))
  unfolding resolve_replay_result
  counted_iff = ground arith

  -- A signal is a WIN exactly when the window has ended and the side it took is the side that came,
  -- and a LOSS exactly when the window has ended and the other side came.
  pub win_iff :
      ((outcome.status ≡ OutcomeStatus.win) ↔ (
        (event.end_time ≤ checked_at)
        × (((signal.side ≡ ShortWindowSignalSide.long_up) × (side_that_came ≡ ResolvedSide.up))
            ⊎ ((signal.side ≡ ShortWindowSignalSide.long_down)
                × (side_that_came ≡ ResolvedSide.down)))))
      × ((outcome.status ≡ OutcomeStatus.loss) ↔ (
          (event.end_time ≤ checked_at)
          × (((signal.side ≡ ShortWindowSignalSide.long_up) × (side_that_came ≡ ResolvedSide.down))
              ⊎ ((signal.side ≡ ShortWindowSignalSide.long_down)
                  × (side_that_came ≡ ResolvedSide.up)))))
  unfolding resolve_replay_result
  win_iff = ground arith

  -- Counted signals are the WIN and LOSS ones.
  pub counted-status :
      (outcome.counted_in_win_rate ≡ true)
      ↔ ((outcome.status ≡ OutcomeStatus.win) ⊎ (outcome.status ≡ OutcomeStatus.loss))
  unfolding resolve_replay_result
  counted-status = ground arith
