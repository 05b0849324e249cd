-- ===== src/FairValue/Eligibility/Gate.antt =====
-- Which markets pass the gate.
use event_probability_termin.Base.{
  ℕ, ◌≤◌, ◌≡◌, ◌⊎◌, ◌↔◌, Option, some, Bool, true, false, not, ◌||◌, List, [], ◌∷◌, ◌++◌, arith,
  is_empty, is_none, is_empty-append, length, only_if, ltb, String,
}
use event_probability_termin.Base.Number.{Number}
use event_probability_termin.Market.{RealtimePriceSymbol}
use event_probability_termin.EventReplay.{FairValueComparator}
use event_probability_termin.FairValue.{BoundEventMarket, Language, PolymarketLiquidityStatus}
use event_probability_termin.FairValue.Eligibility.{
  EligibilityOptions, Reading, is_bound, is_unknown_liquidity, is_vague_rule, is_past,
  liquidity_rank, has_yes_no_tokens, has_yes_no_prices, spread_reasons, liquidity_reasons,
  odds_reasons, terms_reasons, read_market, evaluate_market_eligibility,
}

module _ {F : Type 0} ⦃N : Number F⦄ (language : Language F) where
  -- The market is bound, an underlying is known of it, its text names exactly one, and it has two
  -- tokens and their prices, a finite spread within the limit, and enough liquidity.
  abbrev pub IsTradable : BoundEventMarket F → Reading F → Type 0
  IsTradable bound r =
      (is_bound bound.binding_status ≡ true)
      × ((s : RealtimePriceSymbol) × (r.symbol ≡ some s))
      × (length r.symbols ≡ 1)
      × (has_yes_no_tokens language bound.market ≡ true)
      × (has_yes_no_prices bound.odds ≡ true)
      × ((spread : F) × (bound.odds.spread ≡ some spread)
          × (N.is_finite spread ≡ true)
          × (N.lt r.max_spread spread ≡ false))
      × (is_unknown_liquidity bound.odds.liquidity_status ≡ false)
      × (liquidity_rank r.least_liquidity ≤ liquidity_rank bound.odds.liquidity_status)

  -- It is settled by a price above or below a threshold at an expiry to come, by a rule that is plain.
  abbrev pub IsTerminal : (now : Option ℕ) → Reading F → Type 0
  IsTerminal now r =
      ((threshold : F) × (r.threshold ≡ some threshold))
      × ((r.comparator ≡ some FairValueComparator.above)
          ⊎ (r.comparator ≡ some FairValueComparator.below))
      × ((expiry : ℕ) × (r.expiry ≡ some expiry) × (is_past now expiry ≡ false))
      × (is_vague_rule r.rule ≡ false)
      × (r.is_vague ≡ false)

  spread_lem :
      (max_spread : F) (o : Option F)
      → (is_empty (spread_reasons language max_spread o) ≡ true) ↔ (
          (spread : F) × (o ≡ some spread)
          × (N.is_finite spread ≡ true)
          × (N.lt max_spread spread ≡ false))
  spread_lem max_spread o = ground arith

  liquidity_lem :
      (least status : PolymarketLiquidityStatus)
      → (is_empty (liquidity_reasons least status) ≡ true)
        ↔ ((is_unknown_liquidity status ≡ false) × (liquidity_rank least ≤ liquidity_rank status))
  liquidity_lem least status = ground arith

  binding_lem :
      (b : Bool) (o : Option RealtimePriceSymbol)
      → ((not b || is_none o) ≡ false) ↔ ((b ≡ true) × ((s : RealtimePriceSymbol) × (o ≡ some s)))
  binding_lem b o = ground arith

  one_lem :
      {A : Type 0} (xs : List A)
      → ((ltb 1 (length xs) ≡ false) × (is_empty xs ≡ false)) ↔ (length xs ≡ 1)
  one_lem [] = ground arith
  one_lem (x ∷ xs) = ground arith

  reasons_lem :
      (a b c d e : Bool) (t u v w x : String) (spread liquidity : List String)
      → (is_empty (
            only_if a t
            ++ (only_if b u
                ++ (only_if c v ++ (only_if d w ++ (only_if e x ++ (spread ++ liquidity))))))
          ≡ true)
        ↔ ((a ≡ false)
            × (b ≡ false)
            × (c ≡ false)
            × (d ≡ false)
            × (e ≡ false)
            × (is_empty spread ≡ true)
            × (is_empty liquidity ≡ true))
  reasons_lem a b c d e t u v w x spread liquidity =
      ground (arith, is_empty-append spread liquidity)

  not_lem : (b : Bool) → (not b ≡ false) ↔ (b ≡ true)
  not_lem b = ground arith

  odds_lem :
      (bound : BoundEventMarket F) (r : Reading F)
      → (is_empty (odds_reasons language bound r) ≡ true) ↔ IsTradable bound r
  odds_lem bound r =
      let odds = bound.odds in
      let parts =
        reasons_lem _ _ _ _ _ _ _ _ _ _ (spread_reasons language r.max_spread odds.spread)
          (liquidity_reasons r.least_liquidity odds.liquidity_status) in
      let binding = binding_lem (is_bound bound.binding_status) r.symbol in
      let one = one_lem r.symbols in
      let tokens = not_lem (has_yes_no_tokens language bound.market) in
      let prices = not_lem (has_yes_no_prices odds) in
      let spread = spread_lem r.max_spread odds.spread in
      let liquidity = liquidity_lem r.least_liquidity odds.liquidity_status in
      (
        (λ e.
            let (a, b, c, d, p, q, l) = parts.0 e in
            let (is_bound', symbol) = binding.0 a in
            let (known, enough) = liquidity.0 l in
            (is_bound', symbol, one.0 (b, c), tokens.0 d, prices.0 p, spread.0 q, known, enough)),
        (λ (is_bound', symbol, single, d, p, q, known, enough).
            let (b, c) = one.1 single in
            parts.1 (
              binding.1 (is_bound', symbol),
              b,
              c,
              tokens.1 d,
              prices.1 p,
              spread.1 q,
              liquidity.1 (known, enough),
            )),
      )

  terms_lem :
      (now : Option ℕ) (r : Reading F)
      → (is_empty (terms_reasons language now r) ≡ true) ↔ IsTerminal now r
  terms_lem now r = ground arith

  both_lem :
      (xs ys zs : List String)
      → (is_empty (xs ++ (ys ++ zs)) ≡ true)
        ↔ ((is_empty xs ≡ true) × (is_empty ys ≡ true) × (zs ≡ []))
  both_lem xs ys zs = ground (arith, is_empty-append xs (ys ++ zs), is_empty-append ys zs)

  -- A market passes the gate exactly when its binding stands and an underlying is known of it, its
  -- text names exactly one underlying, whether or not that is the one it is bound to, and it has both
  -- tokens with prices, a finite spread within the limit and enough liquidity; when its text gives a
  -- threshold and a price above or below it, at an expiry that is still to come, by a plain rule; and
  -- when its odds were read without a reason to fail closed.
  pub eligible_iff :
      (bound : BoundEventMarket F) (options : EligibilityOptions F)
      → let r = read_market language bound options in
        ((evaluate_market_eligibility language bound options).eligible ≡ true)
        ↔ (IsTradable bound r × IsTerminal options.now r × (bound.odds.fail_closed_reasons ≡ []))
  unfolding evaluate_market_eligibility
  eligible_iff bound options =
      let r = read_market language bound options in
      let failures = bound.odds.fail_closed_reasons in
      let odds = odds_reasons language bound r in
      let terms = terms_reasons language options.now r in
      let tradable = odds_lem bound r in
      let terminal = terms_lem options.now r in
      let both = both_lem odds terms failures in
      (
        (λ e. let (a, b, c) = both.0 e in (tradable.0 a, terminal.0 b, c)),
        (λ (a, b, c). both.1 (tradable.1 a, terminal.1 b, c)),
      )
