-- ===== src/FairValue/Probability.antt =====
-- packages/research-signals/src/fair-value/probability.ts: the probability that the price ends above a
-- threshold, from the volatility of the closed candles.
pub mod Causal
pub mod Bounds
use mathlib.Core.List.{foldl}
use Prim.Native.String
use event_probability_termin.Base.{
  ℕ, zero, ◌+◌, ◌-◌, ◌/◌, Option, none, some, Bool, not, ◌&&◌, ◌||◌, List, [], ◌∷◌, ◌++◌, map,
  String, ltb, leb, if◌then◌else◌, filter, length, is_empty, last?, only_if, sort, get_elem?,
}
use event_probability_termin.Base.Number.{Number}
use event_probability_termin.Market.{Candle}
use event_probability_termin.FairValue.{Language}

infixl 60 ◌<>◌
abbrev ◌<>◌ : String → String → String
s <> t = String.◌++◌ s t

abbrev pub min_return_count : ℕ
min_return_count = 10

abbrev pub fair_value_assumptions : List String
fair_value_assumptions =
    "Uses recent closed-candle realized volatility as the only distribution input."
    ∷ "Estimates terminal price probability at the stated horizon; it is not risk-neutral pricing."
    ∷ "Ignores jump risk, funding, venue outages, and resolution disputes."
    ∷ "Ignores market-book impact beyond the explicit fee/slippage/spread buffers."
    ∷ "Research only; not trade advice and not a guarantee of profit." ∷ []

-- `current_price` is null for `NaN`, and `now` where it is absent.
pub record TerminalProbabilityInput (F : Type 0) : Type 0 where
  pub current_price : Option F
  pub threshold_price : F
  pub candles : List (Candle F)
  pub horizon_seconds : F
  pub now : Option ℕ

pub record TerminalProbabilityResult (F : Type 0) : Type 0 where
  pub probability_above : Option F
  pub realized_volatility_per_second : Option F
  pub usable_return_count : ℕ
  pub warnings : List String
  pub reject_reasons : List String
  pub assumptions : List String

module _ {F : Type 0} where
  abbrev pub by_time : List (Candle F) → List (Candle F)
  by_time = sort (λ a b. ltb a.timestamp b.timestamp)

  -- `candle.timestamp <= now`; all candles where there is no instant.
  abbrev pub seen_candles : Option ℕ → List (Candle F) → List (Candle F)
  seen_candles none candles = candles
  seen_candles (some now) candles = filter (λ c. leb c.timestamp now) candles

  -- The positive gaps between neighbours, in milliseconds.
  abbrev gaps : List (Candle F) → List ℕ
  gaps [] = []
  gaps (a ∷ []) = []
  gaps (a ∷ b ∷ rest) =
      only_if (ltb a.timestamp b.timestamp) (b.timestamp - a.timestamp) ++ gaps (b ∷ rest)

  abbrev granularity_of : Option (Candle F) → ℕ
  granularity_of none = 60
  granularity_of (some candle) = candle.granularity

module _ {F : Type 0} ⦃N : Number F⦄ where
  unfoldable pub median_interval_seconds : List (Candle F) → F
  median_interval_seconds candles =
      let sorted = by_time candles in
      let intervals = sort (λ a b. ltb a b) (gaps sorted) in
      elim (get_elem? intervals (length intervals / 2)) [
        | none ↦ N.dec (granularity_of (last? sorted)) 0
        | some ms ↦ N.div (N.dec ms 0) (N.dec 1000 0)
      ]

  -- `values.reduce((sum, value) => sum + value, 0)`
  abbrev sum : List F → F
  sum = foldl N.add (N.dec 0 0)

  unfoldable pub sample_variance : List F → F
  sample_variance values =
      let average = N.div (sum values) (N.dec (length values) 0) in
      let squares = map (λ v. N.mul (N.sub v average) (N.sub v average)) values in
      if ltb (length values) 2 then N.dec 0 0 else N.div (sum squares) (N.dec (length values - 1) 0)

  abbrev pub clamp : F → F → F → F
  clamp value least most = N.smallest most (N.largest least value)

  abbrev pub round : F → F
  round = N.to_fixed 6

  abbrev is_positive : F → Bool
  is_positive x = N.is_finite x && not (N.le x (N.dec 0 0))

  unfoldable pub empty_result :
      (usable_return_count : ℕ) → (reject_reasons : List String) → TerminalProbabilityResult F
  empty_result count reasons = record {
    probability_above = none;
    realized_volatility_per_second = none;
    usable_return_count = count;
    warnings = [];
    reject_reasons = reasons;
    assumptions = fair_value_assumptions;
  }

  abbrev pub price_reasons : Option F → List String
  price_reasons none = "Current underlying price is missing or invalid." ∷ []
  price_reasons (some price) =
      only_if (not (is_positive price)) "Current underlying price is missing or invalid."

  module _ (language : Language F) where
    abbrev log_return_of : Candle F → Candle F → List F
    log_return_of previous current =
        if N.le previous.close (N.dec 0 0) || N.le current.close (N.dec 0 0)
        then []
        else language.log (N.div current.close previous.close) ∷ []

    abbrev returns_of : List (Candle F) → List F
    returns_of [] = []
    returns_of (a ∷ []) = []
    returns_of (a ∷ b ∷ rest) = log_return_of a b ++ returns_of (b ∷ rest)

    unfoldable pub log_returns : List (Candle F) → List F
    log_returns candles = returns_of (by_time candles)

    unfoldable pub erf : F → F
    erf value =
        let sign = if N.lt value (N.dec 0 0) then N.neg (N.dec 1 0) else N.dec 1 0 in
        let x = N.abs value in
        let t = N.div (N.dec 1 0) (N.add (N.dec 1 0) (N.mul (N.dec 3275911 7) x)) in
        let a = N.sub (N.mul (N.dec 1061405429 9) t) (N.dec 1453152027 9) in
        let b = N.add (N.mul a t) (N.dec 1421413741 9) in
        let c = N.sub (N.mul b t) (N.dec 284496736 9) in
        let d = N.add (N.mul c t) (N.dec 254829592 9) in
        let tail = N.mul (N.mul d t) (language.exp (N.mul (N.neg x) x)) in
        N.mul sign (N.sub (N.dec 1 0) tail)

    unfoldable pub standard_normal_cdf : F → F
    unfolding erf
    standard_normal_cdf value =
        N.mul (N.dec 5 1) (N.add (N.dec 1 0) (erf (N.div value (N.sqrt (N.dec 2 0)))))

    -- The reasons that the input gives against a valuation.
    abbrev pub input_reasons : TerminalProbabilityInput F → (return_count : ℕ) → List String
    input_reasons input count =
        price_reasons input.current_price
        ++ (only_if (not (is_positive input.threshold_price))
              "Threshold price is missing or invalid."
            ++ (only_if (not (is_positive input.horizon_seconds))
                  "Horizon seconds must be positive."
                ++ only_if (ltb count min_return_count) (
                    "Insufficient closed candles for realized volatility: "
                    <> language.decimal count
                    <> " return(s), "
                    <> language.decimal min_return_count
                    <> " required.")))

    -- The result for a price and a volatility per second.
    unfoldable pub valued :
        TerminalProbabilityInput F
        → (price volatility : F) (count : ℕ) → TerminalProbabilityResult F
    unfolding standard_normal_cdf
    valued input price volatility count =
        let threshold = input.threshold_price in
        let scaled = N.mul volatility (N.sqrt input.horizon_seconds) in
        let z = N.div (language.log (N.div threshold price)) scaled in
        let certain = if N.le threshold price then N.dec 1 0 else N.dec 0 0 in
        let likely =
          round (clamp (N.sub (N.dec 1 0) (standard_normal_cdf z)) (N.dec 0 0) (N.dec 1 0)) in
        let is_flat = N.eq volatility (N.dec 0 0) in
        record {
          probability_above = some (if is_flat then certain else likely);
          realized_volatility_per_second = some (if is_flat then N.dec 0 0 else round volatility);
          usable_return_count = count;
          warnings =
              only_if is_flat
                "Realized volatility is zero; terminal probability collapses to deterministic threshold comparison.";
          reject_reasons = [];
          assumptions = fair_value_assumptions;
        }

    -- The estimate by these candles.
    abbrev pub estimate_by :
        TerminalProbabilityInput F → List (Candle F) → TerminalProbabilityResult F
    estimate_by input candles =
        let returns = log_returns candles in
        let count = length returns in
        let reasons = input_reasons input count in
        let variance = sample_variance returns in
        let interval = median_interval_seconds candles in
        let volatility = N.sqrt (N.div variance interval) in
        let estimated : TerminalProbabilityResult F = elim input.current_price [
          | none ↦ empty_result count reasons
          | some price ↦ valued input price volatility count
        ] in
        if not (is_empty reasons)
        then empty_result count reasons
        else if not (N.is_finite variance) || N.lt variance (N.dec 0 0)
        then empty_result count
            ("Realized volatility could not be estimated from candle returns." ∷ [])
        else if not (is_positive interval)
        then empty_result count
            ("Candle interval could not be inferred for volatility scaling." ∷ [])
        else estimated

    unfoldable pub estimate_terminal_above_probability :
        TerminalProbabilityInput F → TerminalProbabilityResult F
    unfolding log_returns sample_variance median_interval_seconds empty_result valued
    estimate_terminal_above_probability input =
        estimate_by input (seen_candles input.now input.candles)
