-- ===== src/ShortWindow/Settlement/Laws.antt =====
-- When a window settles on a side.
use event_probability_termin.Base.{
  ℕ, ◌≡◌, ◌≢◌, ◌⊎◌, ◌↔◌, true, false, Option, some, none, List, arith,
}
use event_probability_termin.Base.Number.{Number}
use event_probability_termin.Market.{Candle}
use event_probability_termin.ShortWindow.{
  ShortWindowRuleType, ShortWindowTieRule, ShortWindowContractRule, ResolvedSide,
}
use event_probability_termin.ShortWindow.Settlement.{
  start_reference, end_reference, settle, evaluate_short_window_rule_outcome,
}

module _ {F : Type 0} ⦃N : Number F⦄ where
  -- Both prices are there, and the first is below the second.
  abbrev IsBelow : Option F → Option F → Type 0
  IsBelow (some a) (some b) = N.lt a b ≡ true
  IsBelow _ _ = ⊥

  -- Both prices are there, and neither is below the other.
  abbrev IsLevel : Option F → Option F → Type 0
  IsLevel (some a) (some b) = (N.lt a b ≡ false) × (N.lt b a ≡ false)
  IsLevel _ _ = ⊥

  -- Neither a missing price nor a rise from the first to the second.
  abbrev IsNoRise : Option F → Option F → Type 0
  IsNoRise (some a) (some b) = N.lt a b ≡ false
  IsNoRise _ _ = ⊥

  settle_iff :
      (tie : ShortWindowTieRule) (s e : Option F)
      → let side = (settle tie s e).resolved_side in
        ((side ≡ ResolvedSide.up) ↔ (IsBelow s e ⊎ (IsLevel s e × (tie ≡ ShortWindowTieRule.up))))
        × ((side ≡ ResolvedSide.down)
            ↔ ((IsBelow e s × IsNoRise s e) ⊎ (IsLevel s e × (tie ≡ ShortWindowTieRule.down))))
        × ((side ≡ ResolvedSide.tie) ↔ (IsLevel s e × (tie ≡ ShortWindowTieRule.unknown)))
  unfolding settle
  settle_iff tie none e = ground arith
  settle_iff tie (some s) none = ground arith
  settle_iff ShortWindowTieRule.up (some s) (some e) = ground arith
  settle_iff ShortWindowTieRule.down (some s) (some e) = ground arith
  settle_iff ShortWindowTieRule.unknown (some s) (some e) = ground arith

  module _ (rule : ShortWindowContractRule) (start_time end_time : ℕ) (price : Option F)
      (candles : List (Candle F)) where
    abbrev came : ResolvedSide
    came = (evaluate_short_window_rule_outcome rule start_time end_time price candles).resolved_side

    abbrev start : Option F
    start = start_reference rule start_time price candles

    abbrev end : Option F
    end = end_reference rule end_time candles

    abbrev HasRule : Type 0
    HasRule = rule.rule_type ≢ ShortWindowRuleType.unknown_manual_reference

    -- A window settles UP exactly when its rule is known, both reference prices are there, and the
    -- end is above the start, or level with it under the tie rule UP; DOWN exactly when the end is
    -- below and not above the start, or level with it under the tie rule DOWN; and TIE exactly when
    -- it is level with it under an unknown tie rule.
    pub settles_iff :
        ((came ≡ ResolvedSide.up) ↔ (
          HasRule
          × (IsBelow start end ⊎ (IsLevel start end × (rule.tie_rule ≡ ShortWindowTieRule.up)))))
        × ((came ≡ ResolvedSide.down) ↔ (
            HasRule
            × ((IsBelow end start × IsNoRise start end)
                ⊎ (IsLevel start end × (rule.tie_rule ≡ ShortWindowTieRule.down)))))
        × ((came ≡ ResolvedSide.tie)
            ↔ (HasRule × IsLevel start end × (rule.tie_rule ≡ ShortWindowTieRule.unknown)))
    unfolding evaluate_short_window_rule_outcome
    settles_iff = ground (arith, settle_iff rule.tie_rule start end)
