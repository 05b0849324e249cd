-- ===== src/ShortWindow/Window/Causal.antt =====
-- The current window looks at nothing that lies in the future.
use Prim.Native.Nat.{min}
use event_probability_termin.Base.{
  ℕ, ◌+◌, ◌*◌, ◌≤◌, ◌≡◌, refl, ◌&&◌, List, arith, ltb, leb, filter, filter-filter_of_imp, get_or,
}
use event_probability_termin.Base.Number.{Number}
use event_probability_termin.Market.{Candle, RealTimePriceTick}
use event_probability_termin.ShortWindow.{ShortWindowContractRule}
use event_probability_termin.ShortWindow.Settlement.{overlaps}
use event_probability_termin.ShortWindow.Window.{
  BuildCurrentInput, tick_ms, average_reference, opening_price, resolve_start_reference_price,
  resolve_current_price, build_current_short_window_event,
}
use event_probability_termin.ShortWindow.Window.Phases.{window_bounds}

module _ {F : Type 0} ⦃N : Number F⦄ where
  -- What is known at an instant.
  abbrev pub known_candles : ℕ → List (Candle F) → List (Candle F)
  known_candles now = filter (λ c. leb c.timestamp now)

  abbrev pub known_ticks : ℕ → List (RealTimePriceTick F) → List (RealTimePriceTick F)
  known_ticks now = filter (λ t. leb (tick_ms t) now)

  abbrev pub seen : BuildCurrentInput F → BuildCurrentInput F
  seen input = record input {
    price_ticks = known_ticks input.now input.price_ticks;
    candles = known_candles input.now input.candles;
  }

  average_reference-known :
      (candles : List (Candle F)) (ticks : List (RealTimePriceTick F)) (start_ms seconds now : ℕ)
      → average_reference (known_candles now candles) (known_ticks now ticks) start_ms seconds now
        ≡ average_reference candles ticks start_ms seconds now
  unfolding average_reference
  average_reference-known candles ticks start_ms seconds now = rw (
    filter-filter_of_imp
        (λ tick.
          leb start_ms (tick_ms tick)
          && leb (tick_ms tick) (min (start_ms + seconds * 1000) now)
          && N.is_finite tick.price)
        (λ t. leb (tick_ms t) now) ticks (λ t h. ground arith),
    filter-filter_of_imp (overlaps start_ms (min (start_ms + seconds * 1000) now))
        (λ c. leb c.timestamp now) candles (λ c h. ground arith),
  )

  opening_price-known :
      (candles : List (Candle F)) (ticks : List (RealTimePriceTick F)) (start_ms now : ℕ)
      → start_ms ≤ now
      → opening_price (known_candles now candles) (known_ticks now ticks) start_ms now
        ≡ opening_price candles ticks start_ms now
  unfolding opening_price
  opening_price-known candles ticks start_ms now before = rw (
    filter-filter_of_imp
        (λ t. leb start_ms (tick_ms t) && leb (tick_ms t) now && N.is_finite t.price)
        (λ t. leb (tick_ms t) now) ticks (λ t h. ground arith),
    filter-filter_of_imp (λ c. leb start_ms c.timestamp && leb c.timestamp now)
        (λ c. leb c.timestamp now) candles (λ c h. ground arith),
    filter-filter_of_imp
        (λ c. leb c.timestamp start_ms && ltb start_ms (c.timestamp + c.granularity * 1000))
        (λ c. leb c.timestamp now) candles (λ c h. ground arith),
  )

  resolve_current_price-known :
      (ticks : List (RealTimePriceTick F)) (candles : List (Candle F)) (now : ℕ)
      → resolve_current_price (known_ticks now ticks) (known_candles now candles) now
        ≡ resolve_current_price ticks candles now
  unfolding resolve_current_price
  resolve_current_price-known ticks candles now = rw (
    filter-filter_of_imp (λ t. leb (tick_ms t) now && N.is_finite t.price)
        (λ t. leb (tick_ms t) now) ticks (λ t h. ground arith),
    filter-filter_of_imp (λ c. leb c.timestamp now && N.is_finite c.close)
        (λ c. leb c.timestamp now) candles (λ c h. ground arith),
  )

  resolve_start-known :
      (candles : List (Candle F)) (ticks : List (RealTimePriceTick F)) (start_ms now : ℕ)
      (rule : ShortWindowContractRule)
      → start_ms ≤ now
      → resolve_start_reference_price
          (known_candles now candles)
          (known_ticks now ticks)
          start_ms
          now
          rule
        ≡ resolve_start_reference_price candles ticks start_ms now rule
  unfolding resolve_start_reference_price
  resolve_start-known candles ticks start_ms now rule before = ground (
    arith,
    average_reference-known candles ticks start_ms (get_or rule.start_average_seconds 60) now,
    opening_price-known candles ticks start_ms now before,
  )

  -- The start reference, the current price, their distance and the phase of the current window are
  -- those that it has with all ticks and candles later than the present instant taken away.
  pub current_event-seen :
      (input : BuildCurrentInput F)
      → let event = build_current_short_window_event input in
        let known = build_current_short_window_event (seen input) in
        (known.start_reference_price ≡ event.start_reference_price)
        × (known.current_price ≡ event.current_price)
        × (known.distance_from_start ≡ event.distance_from_start)
        × (known.distance_bps ≡ event.distance_bps)
        × (known.status ≡ event.status)
  unfolding build_current_short_window_event
  current_event-seen input =
      let now = input.now in
      let start_ms = (build_current_short_window_event input).start_time in
      let (_, before, _) = window_bounds input.interval now in
      let start =
        resolve_start-known input.candles input.price_ticks start_ms now input.rule before in
      let current = resolve_current_price-known input.price_ticks input.candles now in
      rw (start, current) (refl, refl, refl, refl, refl)
