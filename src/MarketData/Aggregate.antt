-- ===== src/MarketData/Aggregate.antt =====
-- packages/research-signals/src/ohlcv/aggregate.ts: candles of a longer interval out of shorter ones.
pub mod Buckets
pub mod Times
use mathlib.Core.List.{foldl}
use Prim.Native.String
use event_probability_termin.Base.{
  ℕ, ◌+◌, ◌*◌, ◌/◌, ◌%◌, max, Option, none, some, Bool, not, ◌||◌, List, [], ◌∷◌, ◌++◌, map, String,
  ltb, leb, ◌==◌, if◌then◌else◌, length, only_if, all, sort, unique,
}
use event_probability_termin.Base.Number.{Number}
use event_probability_termin.Market.{OhlcvInterval, Candle}

-- `binanceSpotIntervalSeconds`
unfoldable pub interval_seconds : OhlcvInterval → ℕ
interval_seconds OhlcvInterval.m1 = 60
interval_seconds OhlcvInterval.m5 = 5 * 60
interval_seconds OhlcvInterval.m10 = 10 * 60
interval_seconds OhlcvInterval.m15 = 15 * 60
interval_seconds OhlcvInterval.m30 = 30 * 60
interval_seconds OhlcvInterval.h1 = 60 * 60
interval_seconds OhlcvInterval.h4 = 4 * 60 * 60
interval_seconds OhlcvInterval.d1 = 24 * 60 * 60
interval_seconds OhlcvInterval.w1 = 7 * 24 * 60 * 60
interval_seconds OhlcvInterval.mo1 = 30 * 24 * 60 * 60

unfoldable pub interval_ms_for_ohlcv : OhlcvInterval → ℕ
unfolding interval_seconds
interval_ms_for_ohlcv interval = interval_seconds interval * 1000

abbrev interval_text : OhlcvInterval → String
interval_text OhlcvInterval.m1 = "1m"
interval_text OhlcvInterval.m5 = "5m"
interval_text OhlcvInterval.m10 = "10m"
interval_text OhlcvInterval.m15 = "15m"
interval_text OhlcvInterval.m30 = "30m"
interval_text OhlcvInterval.h1 = "1h"
interval_text OhlcvInterval.h4 = "4h"
interval_text OhlcvInterval.d1 = "1d"
interval_text OhlcvInterval.w1 = "1w"
interval_text OhlcvInterval.mo1 = "1M"

-- How JavaScript prints a whole number, and an instant as `toISOString` does. The opening time of a
-- candle is taken to be printed so.
pub record Printer : Type 0 where
  pub decimal : ℕ → String
  pub iso : ℕ → String

infixl 60 ◌<>◌
abbrev ◌<>◌ : String → String → String
s <> t = String.◌++◌ s t

pub record AggregateCandlesResult (F : Type 0) : Type 0 where
  pub candles : List (Candle F)
  pub warnings : List String

-- The variables of the loop: the bucket is in the order in which its candles came.
pub record BucketState (F : Type 0) : Type 0 where
  pub active_bucket_start_ms : Option ℕ
  pub bucket : List (Candle F)
  pub aggregated : List (Candle F)
  pub warnings : List String

-- `bucket[bucket.length - 1]`
abbrev pub last_of : {A : Type 0} → A → List A → A
last_of x [] = x
last_of x (y ∷ ys) = last_of y ys

unfoldable pub bucket_start : (target_ms : ℕ) {F : Type 0} → Candle F → ℕ
bucket_start target_ms candle = candle.open_time / target_ms * target_ms

abbrev short_bucket_warning : Printer → OhlcvInterval → (expected start used : ℕ) → String
short_bucket_warning printer target expected start used =
    ("Derived " <> interval_text target <> " candle at " <> printer.iso start)
    <> " used "
    <> printer.decimal used
    <> "/"
    <> printer.decimal expected
    <> " source candles."

-- Whether the target is a proper multiple of the source.
abbrev pub can_derive : (source_ms target_ms : ℕ) → Bool
can_derive source_ms target_ms = not (leb target_ms source_ms || not (target_ms % source_ms == 0))

module _ {F : Type 0} ⦃N : Number F⦄ where
  -- The candle of a bucket that starts then, of its first candle and the others.
  unfoldable pub derived_candle :
      OhlcvInterval → (target_ms start : ℕ) → Candle F → List (Candle F) → Candle F
  derived_candle target target_ms start first rest = record first {
    interval = target;
    granularity = (target_ms + 500) / 1000;
    open_time = start;
    start_time = start;
    timestamp = start;
    high = foldl N.largest first.high (map (λ c. c.high) rest);
    low = foldl N.smallest first.low (map (λ c. c.low) rest);
    close = (last_of first rest).close;
    volume = N.to_fixed 8 (foldl N.add (N.dec 0 0) (map (λ c. c.volume) (first ∷ rest)));
    is_closed = all (λ c. c.is_closed) (first ∷ rest);
  }

  module _ (printer : Printer) (source target : OhlcvInterval)
      (source_ms target_ms expected : ℕ) where
    unfoldable pub flush : BucketState F → BucketState F
    unfolding derived_candle
    flush state = elim state.active_bucket_start_ms [
      | none ↦ state
      | some start ↦ elim state.bucket [
        | [] ↦ state
        | first ∷ rest ↦ record {
          active_bucket_start_ms = none;
          bucket = [];
          aggregated = state.aggregated ++ (derived_candle target target_ms start first rest ∷ []);
          warnings =
              state.warnings
              ++ only_if (ltb (length (first ∷ rest)) expected)
                  (short_bucket_warning printer target expected start (length (first ∷ rest)));
        }
      ]
    ]

    -- `candleMs - previousMs > sourceMs`
    abbrev gap_warnings : Option (Candle F) → Candle F → List String
    gap_warnings none candle = []
    gap_warnings (some previous) candle =
        only_if (ltb (previous.open_time + source_ms) candle.open_time) (
          "Missing "
          <> interval_text source
          <> " candle gap before "
          <> printer.iso candle.open_time
          <> ".")

    -- The bucket that is active when `start` comes, `start` itself where there is none, and the state
    -- once a bucket of another start is flushed.
    abbrev pub turned : (start : ℕ) → BucketState F → BucketState F
    turned start state = elim state.active_bucket_start_ms [
      | none ↦ record state { active_bucket_start_ms = some start }
      | some active ↦
          if start == active
          then state
          else record (flush state) { active_bucket_start_ms = some start }
    ]

    -- One round of the loop.
    unfoldable pub aggregate_step : Option (Candle F) → Candle F → BucketState F → BucketState F
    unfolding flush bucket_start
    aggregate_step previous candle state =
        let warned : BucketState F = record state {
          warnings = state.warnings ++ gap_warnings previous candle;
        } in
        let ready = turned (bucket_start target_ms candle) warned in
        record ready { bucket = ready.bucket ++ (candle ∷ []) }

    unfoldable pub aggregate_loop :
        Option (Candle F) → List (Candle F) → BucketState F → BucketState F
    unfolding aggregate_step
    aggregate_loop previous [] state = flush state
    aggregate_loop previous (candle ∷ candles) state =
        aggregate_loop (some candle) candles (aggregate_step previous candle state)

  abbrev pub by_open_time : List (Candle F) → List (Candle F)
  by_open_time = sort (λ a b. ltb a.open_time b.open_time)

  unfoldable pub aggregate_sorted :
      Printer → (target : OhlcvInterval) → List (Candle F) → AggregateCandlesResult F
  unfolding aggregate_loop interval_seconds
  aggregate_sorted printer target [] = record { candles = []; warnings = [] }
  aggregate_sorted printer target (first ∷ rest) =
      let source = first.interval in
      let source_ms = interval_seconds source * 1000 in
      let target_ms = interval_seconds target * 1000 in
      let expected = max 1 ((target_ms + source_ms / 2) / source_ms) in
      let start : BucketState F = record {
        active_bucket_start_ms = none;
        bucket = [];
        aggregated = [];
        warnings = [];
      } in
      let final =
        aggregate_loop printer source target source_ms target_ms expected none (first ∷ rest)
          start in
      if can_derive source_ms target_ms
      then record { candles = final.aggregated; warnings = unique final.warnings }
      else record {
        candles = [];
        warnings =
            ("Cannot derive "
              <> interval_text target
              <> " candles from "
              <> interval_text source
              <> " candles.")
            ∷ [];
      }

  unfoldable pub aggregate_candles_to_interval :
      Printer → List (Candle F) → (target : OhlcvInterval) → AggregateCandlesResult F
  unfolding aggregate_sorted
  aggregate_candles_to_interval printer candles target =
      aggregate_sorted printer target (by_open_time candles)
