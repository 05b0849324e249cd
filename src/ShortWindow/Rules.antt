-- ===== src/ShortWindow/Rules.antt =====
-- packages/research-signals/src/short-window/rule-templates.ts: contract rules, and the settlement
-- of a window under a rule.
use event_probability_termin.Base.{ℕ, ◌*◌, Option, none, some, true, false, [], ◌∷◌, String, get_or}
use Prim.Native.String
use event_probability_termin.Market.{SignalSymbol, RealtimePriceSymbol, symbol_text}
use event_probability_termin.ShortWindow.{
  ShortWindowVenue, ShortWindowInterval, ShortWindowRuleType, ShortWindowReferenceSource,
  ShortWindowTieRule, ShortWindowRuleConfidence, ShortWindowContractRule,
}

pub record RuleTemplateInput : Type 0 where
  pub venue : ShortWindowVenue
  pub symbol : SignalSymbol
  pub interval : ShortWindowInterval

unfoldable pub short_window_interval_ms : ShortWindowInterval → ℕ
short_window_interval_ms ShortWindowInterval.m5 = 5 * 60 * 1000
short_window_interval_ms ShortWindowInterval.m10 = 10 * 60 * 1000
short_window_interval_ms ShortWindowInterval.m15 = 15 * 60 * 1000

abbrev interval_text : ShortWindowInterval → String
interval_text ShortWindowInterval.m5 = "5m"
interval_text ShortWindowInterval.m10 = "10m"
interval_text ShortWindowInterval.m15 = "15m"

abbrev venue_text : ShortWindowVenue → String
venue_text ShortWindowVenue.binance_wallet_prediction = "binance-wallet-prediction"
venue_text ShortWindowVenue.hibit = "hibit"
venue_text ShortWindowVenue.proxy_generic = "proxy-generic"
venue_text ShortWindowVenue.mock = "mock"

unfoldable pub to_underlying_symbol : SignalSymbol → RealtimePriceSymbol
to_underlying_symbol SignalSymbol.btc = RealtimePriceSymbol.btcusdt
to_underlying_symbol SignalSymbol.eth = RealtimePriceSymbol.ethusdt

unfoldable pub venue_label : ShortWindowVenue → String
venue_label ShortWindowVenue.binance_wallet_prediction = "Binance Wallet / Predict.fun-style"
venue_label ShortWindowVenue.hibit = "HiBit-style"
venue_label ShortWindowVenue.proxy_generic = "Proxy generic"
venue_label ShortWindowVenue.mock = "Mock"

infixr 65 ◌<>◌
abbrev ◌<>◌ : String → String → String
s <> t = String.◌++◌ s t

-- The text `${venue}:${symbol}:${interval}:${suffix}`.
abbrev rule_id : RuleTemplateInput → String → String
rule_id input suffix =
    venue_text input.venue
    <> ":"
    <> symbol_text input.symbol
    <> ":"
    <> interval_text input.interval
    <> ":"
    <> suffix

abbrev mock_rule : RuleTemplateInput → ShortWindowContractRule
mock_rule input = record {
  id = rule_id input "end-price";
  venue = input.venue;
  interval = input.interval;
  symbol = input.symbol;
  underlying_symbol = to_underlying_symbol input.symbol;
  rule_type = ShortWindowRuleType.end_price_gte_start_price;
  reference_source = ShortWindowReferenceSource.binance_spot_proxy;
  start_average_seconds = none;
  end_average_seconds = none;
  tie_rule = ShortWindowTieRule.up;
  is_verified_rule = true;
  rule_confidence = ShortWindowRuleConfidence.high;
  notes =
      "Deterministic mock rule for local tests only."
      ∷ "Research only. Not trading advice. No automated execution." ∷ [];
}

abbrev proxy_rule : RuleTemplateInput → ShortWindowContractRule
proxy_rule input = record {
  id = rule_id input "binance-spot-end-price";
  venue = input.venue;
  interval = input.interval;
  symbol = input.symbol;
  underlying_symbol = to_underlying_symbol input.symbol;
  rule_type = ShortWindowRuleType.end_price_gte_start_price;
  reference_source = ShortWindowReferenceSource.binance_spot_proxy;
  start_average_seconds = none;
  end_average_seconds = none;
  tie_rule = ShortWindowTieRule.unknown;
  is_verified_rule = false;
  rule_confidence = ShortWindowRuleConfidence.low;
  notes =
      "Proxy rule only: compares Binance Spot public proxy end price against the window start reference."
      ∷ "This is not confirmed as any Binance Wallet, HiBit, Coinbase, or Kalshi settlement rule."
      ∷ "Manual decision support only. Not trading advice." ∷ [];
}

abbrev unknown_rule : RuleTemplateInput → ShortWindowContractRule
unknown_rule input = record {
  id = rule_id input "unknown-manual-reference";
  venue = input.venue;
  interval = input.interval;
  symbol = input.symbol;
  underlying_symbol = to_underlying_symbol input.symbol;
  rule_type = ShortWindowRuleType.unknown_manual_reference;
  reference_source = ShortWindowReferenceSource.unknown;
  start_average_seconds = none;
  end_average_seconds = none;
  tie_rule = ShortWindowTieRule.unknown;
  is_verified_rule = false;
  rule_confidence = ShortWindowRuleConfidence.unknown;
  notes =
      (venue_label input.venue
        <> " short-window settlement rule was not verified from reliable public programmable documentation.")
      ∷ "The product must show this as an unverified manual reference and fail closed for actionable signals."
      ∷ "Research only. Not trading advice. No automated execution."
      ∷ [];
}

unfoldable pub build_short_window_rule_template : RuleTemplateInput → ShortWindowContractRule
unfolding to_underlying_symbol venue_label
build_short_window_rule_template input = elim input.venue [
  | ShortWindowVenue.mock ↦ mock_rule input
  | ShortWindowVenue.proxy_generic ↦ proxy_rule input
  | _ ↦ unknown_rule input
]

-- An average over the seconds before and after, with the defaults of the source.
unfoldable pub build_cf_rti_average_rule_template :
    SignalSymbol
    → ShortWindowInterval
    → Option ℕ
    → Option ℕ
    → Option ShortWindowTieRule
    → ShortWindowContractRule
unfolding to_underlying_symbol
build_cf_rti_average_rule_template symbol interval start_seconds end_seconds tie = record {
  id =
      rule_id
        (record { venue = ShortWindowVenue.proxy_generic; symbol = symbol; interval = interval })
        "cf-rti-average";
  venue = ShortWindowVenue.proxy_generic;
  interval = interval;
  symbol = symbol;
  underlying_symbol = to_underlying_symbol symbol;
  rule_type = ShortWindowRuleType.end_avg_gte_start_avg;
  reference_source = ShortWindowReferenceSource.cf_rti_public_reference;
  start_average_seconds = some (get_or start_seconds 60);
  end_average_seconds = some (get_or end_seconds 60);
  tie_rule = get_or tie ShortWindowTieRule.unknown;
  is_verified_rule = false;
  rule_confidence = ShortWindowRuleConfidence.medium;
  notes =
      "Template based on public crypto prediction market examples that use a time-averaged reference."
      ∷ "It is configurable and remains a proxy unless the exact venue rule is independently verified."
      ∷ "Research only. Not trading advice." ∷ [];
}
