-- ===== src/ShortWindow/Settlement.antt =====
-- `evaluateShortWindowRuleOutcome` and its helpers in
-- packages/research-signals/src/short-window/rule-templates.ts: how a window settles under a rule.
pub mod Laws
use mathlib.Core.List.{foldl, reverse}
use event_probability_termin.Base.{
  ℕ, ◌+◌, ◌-◌, ◌*◌, Option, none, some, Bool, ◌&&◌, List, [], ◌∷◌, map, String, ltb, leb,
  if◌then◌else◌, get_or, filter, first?, sort, length, is_empty,
}
use event_probability_termin.Base.Number.{Number}
use event_probability_termin.Market.{Candle}
use event_probability_termin.ShortWindow.{
  ShortWindowRuleType, ShortWindowTieRule, ShortWindowContractRule, ResolvedSide,
}

pub record RuleOutcome (F : Type 0) : Type 0 where
  pub resolved_side : ResolvedSide
  pub start_reference_price : Option F
  pub end_reference_price : Option F
  pub notes : List String

module _ {F : Type 0} ⦃N : Number F⦄ where
  abbrev pub round_price : F → F
  round_price value = N.to_fixed 8 value

  -- `values.reduce((sum, value) => sum + value, 0)`
  abbrev pub sum : List F → F
  sum = foldl N.add (N.dec 0 0)

  -- The rounded mean, or null of no values.
  abbrev pub rounded_mean : List F → Option F
  rounded_mean values =
      if is_empty values
      then none
      else some (round_price (N.div (sum values) (N.dec (length values) 0)))

  pub finite_or_null : Option F → Option F
  finite_or_null none = none
  finite_or_null (some value) = if N.is_finite value then some value else none

  -- The candle's span meets the span from `start_ms` to `end_ms`.
  abbrev pub overlaps : ℕ → ℕ → Candle F → Bool
  overlaps start_ms end_ms candle =
      ltb candle.timestamp end_ms && ltb start_ms (candle.timestamp + candle.granularity * 1000)

  unfoldable pub average_reference_price : List (Candle F) → ℕ → ℕ → Option F
  average_reference_price candles start_ms duration_seconds =
      let end_ms = start_ms + duration_seconds * 1000 in
      rounded_mean
        (filter N.is_finite (map (λ c. c.close) (filter (overlaps start_ms end_ms) candles)))

  -- The close of the last candle that has closed by then.
  unfoldable pub end_price : List (Candle F) → ℕ → Option F
  unfolding finite_or_null
  end_price candles end_ms =
      let sorted = sort (λ a b. ltb a.timestamp b.timestamp) candles in
      let candle =
        first? (filter (λ c. leb (c.timestamp + c.granularity * 1000) end_ms) (reverse sorted)) in
      finite_or_null (elim candle [ none ↦ none | some c ↦ some c.close ])

  abbrev unresolved : Option F → Option F → String → RuleOutcome F
  unresolved start end note = record {
    resolved_side = ResolvedSide.unknown;
    start_reference_price = start;
    end_reference_price = end;
    notes = note ∷ [];
  }

  abbrev settled : ResolvedSide → F → F → List String → RuleOutcome F
  settled side start end notes = record {
    resolved_side = side;
    start_reference_price = some start;
    end_reference_price = some end;
    notes = notes;
  }

  -- The end price equals the start price.
  settle_tie : ShortWindowTieRule → F → F → RuleOutcome F
  settle_tie ShortWindowTieRule.up start end =
      settled ResolvedSide.up start end ("Tie resolved by configured tieRule=UP." ∷ [])
  settle_tie ShortWindowTieRule.down start end =
      settled ResolvedSide.down start end ("Tie resolved by configured tieRule=DOWN." ∷ [])
  settle_tie ShortWindowTieRule.unknown start end =
      settled ResolvedSide.tie start end ("Tie rule is unknown; not counted as a win or loss." ∷ [])

  -- What is decided once the references are known or found missing.
  unfoldable pub settle : ShortWindowTieRule → Option F → Option F → RuleOutcome F
  unfolding settle_tie
  settle tie (some start) (some end) =
      if N.lt start end
      then settled ResolvedSide.up start end []
      else if N.lt end start
      then settled ResolvedSide.down start end []
      else settle_tie tie start end
  settle tie start end =
      unresolved start end "Insufficient candles to reconstruct the proxy settlement reference."

  -- The start and end reference prices that a rule compares.
  unfoldable pub start_reference :
      ShortWindowContractRule → ℕ → Option F → List (Candle F) → Option F
  start_reference rule start_time price candles = elim rule.rule_type [
    | ShortWindowRuleType.end_avg_gte_start_avg ↦
        average_reference_price candles start_time (get_or rule.start_average_seconds 60)
    | _ ↦ price
  ]

  unfoldable pub end_reference : ShortWindowContractRule → ℕ → List (Candle F) → Option F
  end_reference rule end_time candles = elim rule.rule_type [
    | ShortWindowRuleType.end_avg_gte_start_avg ↦
        average_reference_price candles (end_time - get_or rule.end_average_seconds 60 * 1000)
          (get_or rule.end_average_seconds 60)
    | _ ↦ end_price candles end_time
  ]

  unfoldable pub evaluate_short_window_rule_outcome :
      ShortWindowContractRule
      → (start_time end_time : ℕ) → Option F
      → List (Candle F)
      → RuleOutcome F
  evaluate_short_window_rule_outcome rule start_time end_time price candles = elim rule.rule_type [
    | ShortWindowRuleType.unknown_manual_reference ↦
        unresolved price none
          "Unknown manual reference rule cannot be replay-labeled without verified settlement inputs."
    | _ ↦
        settle rule.tie_rule (start_reference rule start_time price candles)
          (end_reference rule end_time candles)
  ]
