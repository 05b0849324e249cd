-- ===== src/MarketData/Aggregate/Times.antt =====
-- The times of the candles that are put together.
use event_probability_termin.Base.{
  ℕ, ◌*◌, ◌/◌, ◌%◌, ◌≤◌, ◌<◌, ◌≡◌, refl, List, [], ◌∷◌, arith, All, ltb, Bool-cases, inl, inr,
  IsSortedBy, sort-IsSortedBy,
}
use event_probability_termin.Base.Number.{Number}
use event_probability_termin.Market.{OhlcvInterval, Candle}
use event_probability_termin.MarketData.Aggregate.{
  Printer, interval_seconds, interval_ms_for_ohlcv, bucket_start, derived_candle, can_derive,
  by_open_time, aggregate_candles_to_interval,
}
use event_probability_termin.MarketData.Aggregate.Buckets.{
  buckets, Ascend, NoDescent, buckets-Ascend, derived_candles, bucket_candles,
  aggregate_refines_buckets,
}

start_mono : (m n t : ℕ) → m ≤ n → m / t * t ≤ n / t * t
start_mono m n t h = grind arith

start-multiple : (m t : ℕ) → m / t * t % t ≡ 0
start-multiple m t = grind arith

module _ {F : Type 0} ⦃N : Number F⦄ where
  no_descent :
      (t : ℕ) (xs : List (Candle F))
      → IsSortedBy (λ a b. ltb a.open_time b.open_time) xs
      → NoDescent (bucket_start t) xs
  unfolding bucket_start
  no_descent t [] h = tt
  no_descent t (x ∷ []) h = tt
  no_descent t (x ∷ y ∷ ys) (p, h) =
      (start_mono x.open_time y.open_time t (ground arith), no_descent t (y ∷ ys) h)

  -- Candles of which each opens later than the one before.
  abbrev pub OpenLater : List (Candle F) → Type 0
  OpenLater [] = Unit
  OpenLater (x ∷ []) = Unit
  OpenLater (x ∷ y ∷ ys) = (x.open_time < y.open_time) × OpenLater (y ∷ ys)

  derived-OpenLater :
      (target : OhlcvInterval) (t : ℕ) (bs : List (Candle F × List (Candle F)))
      → Ascend (bucket_start t) bs
      → OpenLater (derived_candles target t bs)
  unfolding derived_candle
  derived-OpenLater target t [] h = tt
  derived-OpenLater target t ((f, b) ∷ []) h = tt
  derived-OpenLater target t ((f, b) ∷ (g, c) ∷ rest) (p, h) =
      (p, derived-OpenLater target t ((g, c) ∷ rest) h)

  -- A candle of the target interval that opens at a multiple of it.
  abbrev pub IsAligned : OhlcvInterval → Candle F → Type 0
  IsAligned target c =
      (c.open_time % interval_ms_for_ohlcv target ≡ 0)
      × (c.timestamp ≡ c.open_time)
      × (c.interval ≡ target)

  derived-IsAligned :
      (target : OhlcvInterval) (bs : List (Candle F × List (Candle F)))
      → All (IsAligned target) (derived_candles target (interval_ms_for_ohlcv target) bs)
  unfolding derived_candle bucket_start
  derived-IsAligned target [] = tt
  derived-IsAligned target ((f, b) ∷ rest) = (
    (start-multiple f.open_time (interval_ms_for_ohlcv target), refl, refl),
    derived-IsAligned target rest,
  )

  bucket_facts :
      (target : OhlcvInterval) (sorted : List (Candle F))
      → IsSortedBy (λ a b. ltb a.open_time b.open_time) sorted
      → OpenLater (bucket_candles target sorted)
        × All (IsAligned target) (bucket_candles target sorted)
  unfolding interval_ms_for_ohlcv
  bucket_facts target [] h = (tt, tt)
  bucket_facts target (first ∷ rest) h =
      let t = interval_seconds target * 1000 in
      elim (Bool-cases (can_derive (interval_seconds first.interval * 1000) t)) [
        | inl e ↦
            let bs = buckets (bucket_start t) (first ∷ rest) in
            let ascend =
              buckets-Ascend (bucket_start t) (first ∷ rest) (no_descent t (first ∷ rest) h) in
            rw e (derived-OpenLater target t bs ascend, derived-IsAligned target bs)
        | inr e ↦ rw e (tt, tt)
      ]

  -- The candles that are put together, whatever the order of those that were given, are of the target
  -- interval, open at multiples of it, and each opens later than the one before: no interval has two.
  pub aggregate-OpenLater :
      (printer : Printer) (candles : List (Candle F)) (target : OhlcvInterval)
      → let result = (aggregate_candles_to_interval printer candles target).candles in
        OpenLater result × All (IsAligned target) result
  aggregate-OpenLater printer candles target =
      let sorted =
        sort-IsSortedBy (λ a b. ltb a.open_time b.open_time) (λ a b h. ground arith) candles in
      rw (aggregate_refines_buckets printer candles target)
        (bucket_facts target (by_open_time candles) sorted)
