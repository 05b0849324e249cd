-- ===== src/EventReplay/Labels/Laws.antt =====
-- When a past signal counts as won and as lost.
use event_probability_termin.Base.{ℕ, ◌≡◌, ◌⊎◌, ◌↔◌, true, false, none, some, arith}
use event_probability_termin.Base.Number.{Number}
use event_probability_termin.EventReplay.{
  FairValueComparator, FairValueSignalSide, ReplayOutcomeStatus, ReplayResolvedOutcome,
  LabelReplayOutcomeInput,
}
use event_probability_termin.EventReplay.Labels.{
  is_before, comparator_of, threshold_of, explicit_outcome, price_at_or_before,
  label_replay_outcome, label_expired, reconstruct,
}

module _ {F : Type 0} ⦃N : Number F⦄ where
  -- A price on one side of the threshold, by the comparator of the market: YES is above the
  -- threshold of an ABOVE market, and below that of a BELOW market.
  abbrev pub Crosses : FairValueComparator → ReplayResolvedOutcome → F → F → Type 0
  Crosses FairValueComparator.above ReplayResolvedOutcome.yes_outcome price threshold =
      N.lt threshold price ≡ true
  Crosses FairValueComparator.above ReplayResolvedOutcome.no_outcome price threshold =
      N.lt threshold price ≡ false
  Crosses FairValueComparator.below ReplayResolvedOutcome.yes_outcome price threshold =
      N.lt price threshold ≡ true
  Crosses FairValueComparator.below ReplayResolvedOutcome.no_outcome price threshold =
      N.lt price threshold ≡ false
  Crosses FairValueComparator.hit resolved price threshold = ⊥

  -- A market that came out this way by its expiry: the closed market says so, or it says nothing and
  -- the price at expiry, which is not the threshold, lies on that side of it.
  abbrev pub CameOut : LabelReplayOutcomeInput F → ℕ → ReplayResolvedOutcome → Type 0
  CameOut input expiry resolved =
      (explicit_outcome input ≡ some resolved)
      ⊎ ((explicit_outcome input ≡ none)
          × ((comparator : FairValueComparator) × (threshold : F) × (price : F) × (comparator_of
                  input
                ≡ some comparator)
              × (threshold_of input ≡ some threshold)
              × (price_at_or_before input.historical_candles expiry ≡ some price)
              × (N.eq price threshold ≡ false)
              × Crosses comparator resolved price threshold))

  abbrev HasExpired : LabelReplayOutcomeInput F → ℕ → Type 0
  HasExpired input expiry =
      (input.signal.expiry_time ≡ some expiry) × (is_before input.now expiry ≡ false)

  expired_lem :
      (input : LabelReplayOutcomeInput F) (expiry : ℕ) (resolved : ReplayResolvedOutcome)
      → ((label_expired input expiry).resolved_outcome ≡ some resolved)
        ↔ CameOut input expiry resolved
  unfolding label_expired reconstruct
  expired_lem input expiry resolved = ground arith

  -- A past signal is won exactly when its market has expired and came out on the side that the signal
  -- took, and lost exactly when it has expired and came out on the other side.
  pub label_iff :
      (input : LabelReplayOutcomeInput F)
      → let side = input.signal.side in
        let status = (label_replay_outcome input).status in
        let came = λ (resolved : ReplayResolvedOutcome).
          (expiry : ℕ) × HasExpired input expiry × CameOut input expiry resolved in
        ((status ≡ ReplayOutcomeStatus.win) ↔ (
          ((side ≡ FairValueSignalSide.long_yes) × came ReplayResolvedOutcome.yes_outcome)
          ⊎ ((side ≡ FairValueSignalSide.long_no) × came ReplayResolvedOutcome.no_outcome)))
        × ((status ≡ ReplayOutcomeStatus.loss) ↔ (
            ((side ≡ FairValueSignalSide.long_yes) × came ReplayResolvedOutcome.no_outcome)
            ⊎ ((side ≡ FairValueSignalSide.long_no) × came ReplayResolvedOutcome.yes_outcome)))
  unfolding label_replay_outcome label_expired reconstruct
  label_iff input = ground arith

  -- A signal is pending exactly when it took a side and its market has an expiry that is still to
  -- come.
  pub pending_iff :
      (input : LabelReplayOutcomeInput F)
      → let side = input.signal.side in
        ((label_replay_outcome input).status ≡ ReplayOutcomeStatus.pending) ↔ (
          ((side ≡ FairValueSignalSide.long_yes) ⊎ (side ≡ FairValueSignalSide.long_no))
          × ((expiry : ℕ) × (input.signal.expiry_time ≡ some expiry)
              × (is_before input.now expiry ≡ true)))
  unfolding label_replay_outcome label_expired reconstruct
  pending_iff input = ground arith
