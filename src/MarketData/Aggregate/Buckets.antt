-- ===== src/MarketData/Aggregate/Buckets.antt =====
-- The loop over the candles against the buckets that they fall into.
use event_probability_termin.Base.{
  ℕ, ◌+◌, ◌*◌, ◌/◌, max, ◌≤◌, ◌<◌, ◌≡◌, refl, sym, ap, ◌∙◌, true, false, List, [], ◌∷◌, ◌++◌,
  Option, some, arith, ◌==◌, if◌then◌else◌, Bool-cases, inl, inr,
}
use mathlib.Core.List.{append_assoc}
use mathlib.Core.Path.{ap₂}
use event_probability_termin.Base.Number.{Number}
use event_probability_termin.Market.{OhlcvInterval, Candle}
use event_probability_termin.MarketData.Aggregate.{
  Printer, BucketState, interval_seconds, bucket_start, derived_candle, flush, aggregate_step,
  aggregate_loop, can_derive, by_open_time, aggregate_sorted, aggregate_candles_to_interval,
}

module _ {A : Type 0} (key : A → ℕ) where
  -- Puts a bucket in front of others, as one with the first of them if they have one key. A bucket is
  -- its first item with the others.
  abbrev pub join : A → List A → List (A × List A) → List (A × List A)
  join f b [] = (f, b) ∷ []
  join f b ((g, c) ∷ rest) =
      if key g == key f then (f, b ++ (g ∷ c)) ∷ rest else (f, b) ∷ (g, c) ∷ rest

  -- The items in buckets: neighbours of one key share theirs.
  abbrev pub buckets : List A → List (A × List A)
  buckets [] = []
  buckets (x ∷ xs) = join x [] (buckets xs)

  join_same :
      (f x : A) (b : List A) (rest : List (A × List A))
      → key x ≡ key f
      → join f b (join x [] rest) ≡ join f (b ++ (x ∷ [])) rest
  join_same f x b [] e = ground (arith, e)
  join_same f x b ((g, c) ∷ rest) e =
      let assoc = append_assoc b (x ∷ []) (g ∷ c) in ground (arith, e, assoc)

  join_other :
      (f x : A) (b : List A) (rest : List (A × List A))
      → (key x == key f) ≡ false
      → join f b (join x [] rest) ≡ (f, b) ∷ join x [] rest
  join_other f x b [] e = ground (arith, e)
  join_other f x b ((g, c) ∷ rest) e = ground (arith, e)

  -- The keys of the buckets ascend.
  abbrev pub Ascend : List (A × List A) → Type 0
  Ascend [] = Unit
  Ascend ((f, b) ∷ []) = Unit
  Ascend ((f, b) ∷ (g, c) ∷ rest) = (key f < key g) × Ascend ((g, c) ∷ rest)

  abbrev IsUpTo : A → List (A × List A) → Type 0
  IsUpTo x [] = Unit
  IsUpTo x ((g, c) ∷ rest) = key x ≤ key g

  join-Ascend :
      (x : A) (rest : List (A × List A)) → Ascend rest → IsUpTo x rest → Ascend (join x [] rest)
  join-Ascend x [] h low = tt
  join-Ascend x ((g, c) ∷ []) h low = ground arith
  join-Ascend x ((g, c) ∷ (g', c') ∷ rest) h low = ground arith

  join-IsUpTo : (w x : A) (rest : List (A × List A)) → key w ≤ key x → IsUpTo w (join x [] rest)
  join-IsUpTo w x [] h = h
  join-IsUpTo w x ((g, c) ∷ rest) h = ground arith

  -- Of items whose keys do not descend.
  abbrev pub NoDescent : List A → Type 0
  NoDescent [] = Unit
  NoDescent (x ∷ []) = Unit
  NoDescent (x ∷ y ∷ ys) = (key x ≤ key y) × NoDescent (y ∷ ys)

  pub buckets-Ascend : (xs : List A) → NoDescent xs → Ascend (buckets xs)
  buckets-Ascend [] h = tt
  buckets-Ascend (x ∷ []) h = tt
  buckets-Ascend (x ∷ y ∷ ys) (p, h) =
      join-Ascend x (buckets (y ∷ ys)) (buckets-Ascend (y ∷ ys) h) (join-IsUpTo x y (buckets ys) p)

module _ {F : Type 0} ⦃N : Number F⦄ where
  -- The candle of each bucket, with the time at which the bucket starts.
  abbrev pub derived_candles :
      OhlcvInterval → (target_ms : ℕ) → List (Candle F × List (Candle F)) → List (Candle F)
  derived_candles target target_ms [] = []
  derived_candles target target_ms ((first, rest) ∷ more) =
      derived_candle target target_ms (bucket_start target_ms first) first rest
      ∷ derived_candles target target_ms more

  module _ (printer : Printer) (source target : OhlcvInterval)
      (source_ms target_ms expected : ℕ) where
    abbrev key_of : Candle F → ℕ
    key_of = bucket_start target_ms

    -- A state whose active bucket has a first candle.
    abbrev IsFilled : Candle F → List (Candle F) → BucketState F → Type 0
    IsFilled f b state = (state.active_bucket_start_ms ≡ some (key_of f)) × (state.bucket ≡ f ∷ b)

    flush_lem :
        (f : Candle F) (b : List (Candle F)) (state : BucketState F)
        → IsFilled f b state
        → (flush printer source target source_ms target_ms expected state).aggregated
          ≡ state.aggregated ++ (derived_candle target target_ms (key_of f) f b ∷ [])
    unfolding flush
    flush_lem f b state (active, filled) = ground (arith, active, filled)

    abbrev step : Option (Candle F) → Candle F → BucketState F → BucketState F
    step = aggregate_step printer source target source_ms target_ms expected

    -- A candle of the active bucket joins it.
    step_same :
        (previous : Option (Candle F)) (x f : Candle F) (b : List (Candle F))
        (state : BucketState F)
        → IsFilled f b state
        → (key_of x == key_of f) ≡ true
        → IsFilled f (b ++ (x ∷ [])) (step previous x state)
          × ((step previous x state).aggregated ≡ state.aggregated)
    unfolding aggregate_step
    step_same previous x f b state (active, filled) same = ground (arith, active, filled, same)

    -- A candle of another bucket closes the active one and opens its own.
    step_other :
        (previous : Option (Candle F)) (x f : Candle F) (b : List (Candle F))
        (state : BucketState F)
        → IsFilled f b state
        → (key_of x == key_of f) ≡ false
        → IsFilled x [] (step previous x state)
          × ((step previous x state).aggregated
              ≡ state.aggregated ++ (derived_candle target target_ms (key_of f) f b ∷ []))
    unfolding aggregate_step flush
    step_other previous x f b state (active, filled) differs =
        ground (arith, active, filled, differs)

    loop_lem :
        (previous : Option (Candle F)) (xs : List (Candle F)) (f : Candle F) (b : List (Candle F))
        (state : BucketState F)
        → IsFilled f b state
        → (aggregate_loop printer source target source_ms target_ms expected previous xs
            state).aggregated
          ≡ state.aggregated
            ++ derived_candles target target_ms (join key_of f b (buckets key_of xs))
    unfolding aggregate_loop
    loop_lem previous [] f b state h = flush_lem f b state h
    loop_lem previous (x ∷ xs) f b state h =
        let rest = buckets key_of xs in
        elim (Bool-cases (key_of x == key_of f)) [
          | inl same ↦
              let (filled, kept) = step_same previous x f b state h same in
              let joined = join_same key_of f x b rest (ground arith) in
              loop_lem (some x) xs f (b ++ (x ∷ [])) (step previous x state) filled
              ∙ ap₂ (λ a g. a ++ derived_candles target target_ms g) kept (sym joined)
          | inr differs ↦
              let (filled, grown) = step_other previous x f b state h differs in
              let apart = join_other key_of f x b rest differs in
              let here = derived_candle target target_ms (key_of f) f b in
              loop_lem (some x) xs x [] (step previous x state) filled
              ∙ ap (λ a. a ++ derived_candles target target_ms (join key_of x [] rest)) grown
              ∙ append_assoc state.aggregated (here ∷ [])
                  (derived_candles target target_ms (join key_of x [] rest))
              ∙ ap (λ g. state.aggregated ++ derived_candles target target_ms g) (sym apart)
        ]

  -- What the candles should be: of sorted candles whose interval divides the target, one for each
  -- bucket.
  abbrev pub bucket_candles : OhlcvInterval → List (Candle F) → List (Candle F)
  bucket_candles target [] = []
  bucket_candles target (first ∷ rest) =
      let target_ms = interval_seconds target * 1000 in
      if can_derive (interval_seconds first.interval * 1000) target_ms
      then derived_candles target target_ms (buckets (bucket_start target_ms) (first ∷ rest))
      else []

  sorted_lem :
      (printer : Printer) (target : OhlcvInterval) (sorted : List (Candle F))
      → (aggregate_sorted printer target sorted).candles ≡ bucket_candles target sorted
  unfolding aggregate_sorted aggregate_loop aggregate_step
  sorted_lem printer target [] = refl
  sorted_lem printer target (first ∷ rest) =
      let source_ms = interval_seconds first.interval * 1000 in
      let target_ms = interval_seconds target * 1000 in
      let all =
        loop_lem printer first.interval target source_ms target_ms
          (max 1 ((target_ms + source_ms / 2) / source_ms)) (some first) rest first [] _
          (refl, refl) in
      elim (Bool-cases (can_derive source_ms target_ms)) [ inl e ↦ rw e all | inr e ↦ rw e refl ]

  -- The candles that the loop puts out are those of the buckets of the sorted candles, and none where
  -- the target interval is no proper multiple of theirs.
  pub aggregate_refines_buckets :
      (printer : Printer) (candles : List (Candle F)) (target : OhlcvInterval)
      → (aggregate_candles_to_interval printer candles target).candles
        ≡ bucket_candles target (by_open_time candles)
  unfolding aggregate_candles_to_interval
  aggregate_refines_buckets printer candles target =
      sorted_lem printer target (by_open_time candles)
