-- ===== src/EventReplay/Labels.antt =====
-- packages/research-signals/src/replay/outcome-labeler.ts: how a past signal came out, and what a
-- stake on it would have brought.
pub mod Laws
use Prim.Native.String
use mathlib.Core.Option
use event_probability_termin.Base.{
  ℕ, Option, none, some, Bool, true, false, not, List, [], ◌∷◌, String, ltb, leb, if◌then◌else◌,
  get_or, or_else, filter, first?, sort,
}
use event_probability_termin.Base.Number.{Number}
use event_probability_termin.Market.{Candle}
use event_probability_termin.EventReplay.{
  FairValueComparator, FairValueSignalSide, ReplayOutcomeStatus, ReplayResolvedOutcome,
  ReplayOutcomeSource, ReplaySignal, ReplayOutcome, ReplayTradeLikeResult, LabelReplayOutcomeInput,
  BuildReplayResultInput,
}

-- `signal.side === "LONG_YES" || signal.side === "LONG_NO"`
abbrev pub is_long : FairValueSignalSide → Bool
is_long FairValueSignalSide.long_yes = true
is_long FairValueSignalSide.long_no = true
is_long _ = false

-- `status === "WIN" || status === "LOSS"`
abbrev pub is_decided : ReplayOutcomeStatus → Bool
is_decided ReplayOutcomeStatus.win = true
is_decided ReplayOutcomeStatus.loss = true
is_decided _ = false

-- `Number.isFinite(nowMs) && nowMs < expiryMs`
abbrev pub is_before : Option ℕ → ℕ → Bool
is_before none expiry = false
is_before (some now) expiry = ltb now expiry

-- `won` of `outcomeFromResolved`.
abbrev pub won : FairValueSignalSide → ReplayResolvedOutcome → Bool
won FairValueSignalSide.long_yes ReplayResolvedOutcome.yes_outcome = true
won FairValueSignalSide.long_no ReplayResolvedOutcome.no_outcome = true
won _ _ = false

abbrev comparator_text : FairValueComparator → String
comparator_text FairValueComparator.above = "ABOVE"
comparator_text FairValueComparator.below = "BELOW"
comparator_text FairValueComparator.hit = "HIT"

infixl 60 ◌<>◌
abbrev ◌<>◌ : String → String → String
s <> t = String.◌++◌ s t

module _ {F : Type 0} where
  unfoldable pub base_outcome :
      ReplaySignal F → ReplayOutcomeStatus → ReplayOutcomeSource → List String → ReplayOutcome F
  base_outcome signal status source notes = record {
    signal_id = signal.id;
    market_id = signal.market_id;
    status = status;
    resolved_outcome = none;
    outcome_source = source;
    resolved_at = none;
    price_at_expiry = none;
    notes = notes;
  }

  unfoldable pub outcome_from_resolved :
      ReplaySignal F
      → ReplayResolvedOutcome
      → ReplayOutcomeSource
      → (resolved_at : Option ℕ) (price_at_expiry : Option F) → List String
      → ReplayOutcome F
  outcome_from_resolved signal resolved source resolved_at price_at_expiry notes = record {
    signal_id = signal.id;
    market_id = signal.market_id;
    status = if won signal.side resolved then ReplayOutcomeStatus.win else ReplayOutcomeStatus.loss;
    resolved_outcome = some resolved;
    outcome_source = source;
    resolved_at = resolved_at;
    price_at_expiry = price_at_expiry;
    notes = notes;
  }

  -- `input.eligibility?.extracted.… ?? input.closedMarketData?.eligibility?.extracted.…`
  abbrev pub comparator_of : LabelReplayOutcomeInput F → Option FairValueComparator
  comparator_of input = or_else (Option.bind input.eligibility (λ e. e.extracted.comparator)) (
      Option.bind input.closed_market_data
        (λ c. Option.bind c.eligibility (λ e. e.extracted.comparator)))

  abbrev pub threshold_of : LabelReplayOutcomeInput F → Option F
  threshold_of input = or_else (Option.bind input.eligibility (λ e. e.extracted.threshold_price)) (
      Option.bind input.closed_market_data
        (λ c. Option.bind c.eligibility (λ e. e.extracted.threshold_price)))

  abbrev pub explicit_outcome : LabelReplayOutcomeInput F → Option ReplayResolvedOutcome
  explicit_outcome input = Option.bind input.closed_market_data (λ c. c.resolved_outcome)

module _ {F : Type 0} ⦃N : Number F⦄ where
  -- The close of the last candle that starts by then, if it is finite.
  unfoldable pub price_at_or_before : List (Candle F) → ℕ → Option F
  price_at_or_before candles target =
      let candidate = first? (
        sort (λ a b. ltb b.timestamp a.timestamp) (filter (λ c. leb c.timestamp target) candles)) in
      Option.bind candidate (λ c. if N.is_finite c.close then some c.close else none)

  -- `comparator === "ABOVE" ? price > threshold ? … : price < threshold ? …`, of the two comparators
  -- that a threshold settles.
  unfoldable pub threshold_outcome : FairValueComparator → F → F → ReplayResolvedOutcome
  threshold_outcome comparator price threshold =
      let holds : Bool = elim comparator [
        | FairValueComparator.above ↦ N.lt threshold price
        | _ ↦ N.lt price threshold
      ] in
      if holds then ReplayResolvedOutcome.yes_outcome else ReplayResolvedOutcome.no_outcome

  -- The reconstruction from the price at expiry, for a market that a threshold settles.
  unfoldable pub reconstruct :
      ReplaySignal F → FairValueComparator → F → List (Candle F) → ℕ → ReplayOutcome F
  unfolding base_outcome outcome_from_resolved price_at_or_before threshold_outcome
  reconstruct signal comparator threshold candles expiry =
      let source = ReplayOutcomeSource.binance_threshold_reconstruction in
      elim (price_at_or_before candles expiry) [
        | none ↦ base_outcome signal ReplayOutcomeStatus.unresolved ReplayOutcomeSource.unknown (
            "No Binance historical candle was available at expiry for threshold reconstruction."
            ∷ [])
        | some price ↦
            if N.eq price threshold
            then record (base_outcome signal ReplayOutcomeStatus.unresolved source (
                "Expiry price equals threshold; tie resolution rule is not confirmed, so replay does not guess."
                ∷ [])) { price_at_expiry = some price }
            else outcome_from_resolved signal (threshold_outcome comparator price threshold) source
                (some expiry) (some price)
                ((("Terminal " <> comparator_text comparator)
                    <> " threshold reconstructed from Binance public candle close at expiry.")
                  ∷ "Resolution source is research reconstruction, not Polymarket settlement proof."
                  ∷ [])
      ]

  -- The label of a signal that took a side and whose market has expired.
  unfoldable pub label_expired : LabelReplayOutcomeInput F → ℕ → ReplayOutcome F
  unfolding reconstruct
  label_expired input expiry =
      let signal = input.signal in
      let unresolved = λ (note : String).
        base_outcome signal ReplayOutcomeStatus.unresolved ReplayOutcomeSource.unknown
          (note ∷ []) in
      let closed = input.closed_market_data in
      let by_threshold : ReplayOutcome F = elim (comparator_of input) [
        | some FairValueComparator.hit ↦
            unresolved
              "Path-dependent HIT/reach market cannot be reconstructed from terminal expiry price only."
        | some FairValueComparator.above ↦ elim (threshold_of input) [
          | some threshold ↦
              reconstruct signal FairValueComparator.above threshold input.historical_candles expiry
          | none ↦
              unresolved
                "Closed market did not expose an explicit outcome and threshold reconstruction was not eligible."
        ]
        | some FairValueComparator.below ↦ elim (threshold_of input) [
          | some threshold ↦
              reconstruct signal FairValueComparator.below threshold input.historical_candles expiry
          | none ↦
              unresolved
                "Closed market did not expose an explicit outcome and threshold reconstruction was not eligible."
        ]
        | none ↦
            unresolved
              "Closed market did not expose an explicit outcome and threshold reconstruction was not eligible."
      ] in
      elim (explicit_outcome input) [
        | some resolved ↦
            outcome_from_resolved signal resolved
              (get_or (Option.bind closed (λ c. c.outcome_source))
                ReplayOutcomeSource.polymarket_closed_market)
              (Option.bind closed (λ c. c.resolved_at)) none
              (get_or (Option.bind closed (λ c. c.resolution_notes))
                ("Resolved outcome provided by closed-market data." ∷ []))
        | none ↦ by_threshold
      ]

  unfoldable pub label_replay_outcome : LabelReplayOutcomeInput F → ReplayOutcome F
  unfolding label_expired
  label_replay_outcome input =
      let signal = input.signal in
      let base = λ (status : ReplayOutcomeStatus) (note : String).
        base_outcome signal status ReplayOutcomeSource.unknown (note ∷ []) in
      let taken : ReplayOutcome F = elim signal.expiry_time [
        | none ↦ base ReplayOutcomeStatus.unresolved "Signal expiryTime is invalid."
        | some expiry ↦
            if is_before input.now expiry
            then base ReplayOutcomeStatus.pending
                "Market has not reached expiry at replay check time."
            else label_expired input expiry
      ] in
      elim signal.side [
        | FairValueSignalSide.no_signal ↦
            base ReplayOutcomeStatus.no_signal "NO_SIGNAL is not counted in realized win rate."
        | FairValueSignalSide.rejected ↦
            base ReplayOutcomeStatus.rejected
              "Rejected signals are not counted in realized win rate."
        | _ ↦ taken
      ]

  abbrev pub round : F → F
  round = N.to_fixed 6

  unfoldable pub theoretical_entry_price : BuildReplayResultInput F → Option F
  theoretical_entry_price input =
      let signal = input.signal in
      elim signal.side [
        | FairValueSignalSide.long_yes ↦ signal.market_probability_yes
        | FairValueSignalSide.long_no ↦
            or_else input.market_no_price
              (Option.map (λ p. round (N.sub (N.dec 1 0) p)) signal.market_probability_yes)
        | _ ↦ none
      ]

  -- One for a win, nothing for a loss.
  unfoldable pub theoretical_exit_value : ReplayOutcomeStatus → Option F
  theoretical_exit_value ReplayOutcomeStatus.win = some (N.dec 1 0)
  theoretical_exit_value ReplayOutcomeStatus.loss = some (N.dec 0 0)
  theoretical_exit_value _ = none

  unfoldable pub build_replay_trade_like_result : BuildReplayResultInput F → ReplayTradeLikeResult F
  unfolding theoretical_entry_price theoretical_exit_value
  build_replay_trade_like_result input =
      let entry = theoretical_entry_price input in
      let exit = theoretical_exit_value input.outcome.status in
      record {
        signal = input.signal;
        outcome = input.outcome;
        theoretical_entry_price = entry;
        theoretical_exit_value = exit;
        theoretical_pnl =
            Option.bind entry (λ paid. Option.map (λ value. round (N.sub value paid)) exit);
        fees_assumption = "0 fee assumption for research replay; no real venue fees were charged.";
        slippage_assumption =
            "No realized slippage; replay uses theoretical signal-time probability only.";
        spread_assumption =
            "Observed spread is treated as research context, not executable liquidity.";
        counted_in_win_rate = is_decided input.outcome.status;
      }
