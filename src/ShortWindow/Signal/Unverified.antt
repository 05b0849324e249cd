-- ===== src/ShortWindow/Signal/Unverified.antt =====
-- The rule templates of unverified venues and the signal engine together.
use event_probability_termin.Base.{◌≡◌, ap, ◌∙◌, ◌⊎◌, inl, inr, true, arith}
use event_probability_termin.Base.Number.{Number}
use event_probability_termin.ShortWindow.{ShortWindowVenue, ShortWindowEvent, ShortWindowSignalSide}
use event_probability_termin.ShortWindow.Rules.{RuleTemplateInput, build_short_window_rule_template}
use event_probability_termin.ShortWindow.Signal.{is_unknown_rule, generate_short_window_signal}
use event_probability_termin.ShortWindow.Signal.Features.{MarketState}
use event_probability_termin.ShortWindow.Signal.Closed.{rejected_iff}

-- A venue whose settlement rule is not known.
abbrev IsUnverified : ShortWindowVenue → Type 0
IsUnverified venue =
    (venue ≡ ShortWindowVenue.binance_wallet_prediction) ⊎ (venue ≡ ShortWindowVenue.hibit)

template-is_unknown_rule :
    (input : RuleTemplateInput)
    → IsUnverified input.venue
    → is_unknown_rule (build_short_window_rule_template input) ≡ true
unfolding build_short_window_rule_template
template-is_unknown_rule input (inl e) = ground arith
template-is_unknown_rule input (inr e) = ground arith

-- A signal on a window of Binance Wallet or HiBit, whose rule is the template for that venue, is
-- REJECTED, whatever the prices, the phase and the market are.
pub unverified_rejected :
    {F : Type 0} ⦃N : Number F⦄ (input : RuleTemplateInput) (event : ShortWindowEvent F)
    (state : MarketState F)
    → event.rule ≡ build_short_window_rule_template input
    → (input.venue ≡ ShortWindowVenue.binance_wallet_prediction)
      ⊎ (input.venue ≡ ShortWindowVenue.hibit)
    → (generate_short_window_signal event state).side ≡ ShortWindowSignalSide.rejected
unverified_rejected input event state is_template venue = (rejected_iff event state).1 (λ accepted.
    let unknown = ap is_unknown_rule is_template ∙ template-is_unknown_rule input venue in
    let known = accepted.known_rule in absurd (ground (arith, known, unknown)))
