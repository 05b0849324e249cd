-- ===== src/Store/Jsonl/Durable.antt =====
-- What holds of the tables of the store, and of its files, after any run of calls.
use event_probability_termin.Base.{
  ℕ, ◌≡◌, refl, sym, not, ◌&&◌, String, same_text, none, some, map, false, inl, inr, Bool-cases,
  All, All-map_weaken, Bool, true, Option, List, [], ◌∷◌, arith,
}
use mathlib.Core.Path.{subst}
use event_probability_termin.Store.Table.{
  Table, Schema, put_row, insert_into, insert_record, load_table,
}
use event_probability_termin.Store.Table.Growth.{IsStamping}
use event_probability_termin.Store.Table.Kept.{
  IsChecked, IsKept, insert-keeps_all, insert_record-keeps_all, put_row-IsKept, put_row-IsChecked,
  load-IsKept, load-IsChecked,
}
use event_probability_termin.Store.Records.{
  assert_store_source, assert_provider, MarketSnapshotRecord, UnderlyingCandleRecord,
  FairValueSignalRecord, ReplayResultRecord, ShortWindowSignalRecord, ShortWindowReplayResultRecord,
  StrategyLabResultRecord, CaptureRunRecord,
}
use event_probability_termin.Store.Schemas.{
  market_snapshot_schema, underlying_candle_schema, fair_value_signal_schema, replay_result_schema,
  short_window_signal_schema, short_window_replay_result_schema, strategy_lab_result_schema,
  capture_run_schema, market_snapshot-IsStamping, underlying_candle-IsStamping,
  fair_value_signal-IsStamping, replay_result-IsStamping, short_window_signal-IsStamping,
  short_window_replay_result-IsStamping, strategy_lab_result-IsStamping, capture_run-IsStamping,
}
use event_probability_termin.Store.Jsonl.{
  JsonlStore, Call, load_all, init, shut, serve, serve_all, insert_market_snapshots,
  insert_underlying_candles, insert_fair_value_signals, insert_replay_result,
  insert_short_window_signals, insert_short_window_replay_result, insert_strategy_lab_result,
  record_capture_run,
}

-- A property of tables that every round of the insert loops keeps, and the reading of the file.
module _ (P : (R : Type 0) → Schema R → (R → Option ℕ) → Table R → Type 0)
    (put : (R : Type 0) (schema : Schema R) (id_of : R → Option ℕ)
        (stamping : IsStamping schema id_of) (now : ℕ) (t : Table R) (r : R)
      → P _ schema id_of t
      → schema.check r ≡ none
      → P _ schema id_of (put_row schema now t r))
    (load : (R : Type 0) (schema : Schema R) (id_of : R → Option ℕ) (t : Table R)
      → P _ schema id_of t
      → P _ schema id_of (load_table t)) where
  inserted :
      {R : Type 0} (schema : Schema R) (id_of : R → Option ℕ) (stamping : IsStamping schema id_of)
      (now : ℕ) (records : List R) (t : Table R)
      → P R schema id_of t
      → P R schema id_of (insert_into schema now records t).0
  inserted {R = R} schema id_of stamping now records t p =
      insert-keeps_all schema (P R schema id_of) now (put R schema id_of stamping now) records t p

  recorded :
      {R : Type 0} (schema : Schema R) (id_of : R → Option ℕ) (stamping : IsStamping schema id_of)
      (now : ℕ) (r : R) (t : Table R)
      → P R schema id_of t
      → P R schema id_of (insert_record schema now r t).0
  recorded {R = R} schema id_of stamping now r t p =
      insert_record-keeps_all schema (P R schema id_of) now (put R schema id_of stamping now) r t p

  module _ {F : Type 0} where
    -- Every table has the property.
    abbrev pub Holds : JsonlStore F → Type 0
    Holds s =
        (P _ market_snapshot_schema (λ r. r.id) s.market_snapshots)
        × (P _ underlying_candle_schema (λ r. r.id) s.underlying_candles)
        × (P _ fair_value_signal_schema (λ r. r.id) s.fair_value_signals)
        × (P _ replay_result_schema (λ r. r.id) s.replay_results)
        × (P _ short_window_signal_schema (λ r. r.id) s.short_window_signals)
        × (P _ short_window_replay_result_schema (λ r. r.id) s.short_window_replay_results)
        × (P _ strategy_lab_result_schema (λ r. r.id) s.strategy_lab_results)
        × (P _ capture_run_schema (λ r. r.id) s.capture_runs)

    init-ready : (s : JsonlStore F) → (init s).initialized ≡ true
    unfolding init load_all
    init-ready s = ground arith

    init_of_ready : (s : JsonlStore F) → s.initialized ≡ true → init s ≡ s
    unfolding init
    init_of_ready s ready = rw ready refl

    init_of_shut : (s : JsonlStore F) → s.initialized ≡ false → init s ≡ load_all s
    unfolding init
    init_of_shut s closed = rw closed refl

    loaded : (s : JsonlStore F) → Holds s → Holds (load_all s)
    unfolding load_all
    loaded s (a, b, c, d, f, g, h, i) = (
      load _ _ _ s.market_snapshots a,
      load _ _ _ s.underlying_candles b,
      load _ _ _ s.fair_value_signals c,
      load _ _ _ s.replay_results d,
      load _ _ _ s.short_window_signals f,
      load _ _ _ s.short_window_replay_results g,
      load _ _ _ s.strategy_lab_results h,
      load _ _ _ s.capture_runs i,
    )

    -- A store that is initialized is what `init` gives of it.
    ready-Holds : (s : JsonlStore F) → s.initialized ≡ true → Holds s → Holds (init s)
    ready-Holds s ready h = subst Holds (sym (init_of_ready s ready)) h

    -- The files hold what is needed, since `init` has read them or since memory has the property.
    load_all-Holds : (s : JsonlStore F) → Holds (init s) → Holds (load_all s)
    load_all-Holds s h = elim (Bool-cases s.initialized) [
      | inl ready ↦ loaded s (subst Holds (init_of_ready s ready) h)
      | inr closed ↦ subst Holds (init_of_shut s closed) h
    ]

    insert_market_snapshots-Holds :
        (now : ℕ) (records : List (MarketSnapshotRecord F)) (s : JsonlStore F)
        → Holds (init s)
        → Holds (init (insert_market_snapshots now records s).0)
    unfolding insert_market_snapshots
    insert_market_snapshots-Holds now records s (a, b, c, d, f, g, h, i) =
        ready-Holds _ (init-ready s)
          (inserted _ _ market_snapshot-IsStamping now records _ a, b, c, d, f, g, h, i)

    insert_underlying_candles-Holds :
        (now : ℕ) (records : List (UnderlyingCandleRecord F)) (s : JsonlStore F)
        → Holds (init s)
        → Holds (init (insert_underlying_candles now records s).0)
    unfolding insert_underlying_candles
    insert_underlying_candles-Holds now records s (a, b, c, d, f, g, h, i) =
        ready-Holds _ (init-ready s)
          (a, inserted _ _ underlying_candle-IsStamping now records _ b, c, d, f, g, h, i)

    insert_fair_value_signals-Holds :
        (now : ℕ) (records : List (FairValueSignalRecord F)) (s : JsonlStore F)
        → Holds (init s)
        → Holds (init (insert_fair_value_signals now records s).0)
    unfolding insert_fair_value_signals
    insert_fair_value_signals-Holds now records s (a, b, c, d, f, g, h, i) =
        ready-Holds _ (init-ready s)
          (a, b, inserted _ _ fair_value_signal-IsStamping now records _ c, d, f, g, h, i)

    insert_replay_result-Holds :
        (now : ℕ) (records : ReplayResultRecord F) (s : JsonlStore F)
        → Holds (init s)
        → Holds (init (insert_replay_result now records s).0)
    unfolding insert_replay_result
    insert_replay_result-Holds now records s (a, b, c, d, f, g, h, i) =
        ready-Holds _ (init-ready s)
          (a, b, c, recorded _ _ replay_result-IsStamping now records _ d, f, g, h, i)

    insert_short_window_signals-Holds :
        (now : ℕ) (records : List (ShortWindowSignalRecord F)) (s : JsonlStore F)
        → Holds (init s)
        → Holds (init (insert_short_window_signals now records s).0)
    unfolding insert_short_window_signals
    insert_short_window_signals-Holds now records s (a, b, c, d, f, g, h, i) =
        ready-Holds _ (init-ready s)
          (a, b, c, d, inserted _ _ short_window_signal-IsStamping now records _ f, g, h, i)

    insert_short_window_replay_result-Holds :
        (now : ℕ) (records : ShortWindowReplayResultRecord F) (s : JsonlStore F)
        → Holds (init s)
        → Holds (init (insert_short_window_replay_result now records s).0)
    unfolding insert_short_window_replay_result
    insert_short_window_replay_result-Holds now records s (a, b, c, d, f, g, h, i) =
        ready-Holds _ (init-ready s)
          (a, b, c, d, f, recorded _ _ short_window_replay_result-IsStamping now records _ g, h, i)

    insert_strategy_lab_result-Holds :
        (now : ℕ) (records : StrategyLabResultRecord F) (s : JsonlStore F)
        → Holds (init s)
        → Holds (init (insert_strategy_lab_result now records s).0)
    unfolding insert_strategy_lab_result
    insert_strategy_lab_result-Holds now records s (a, b, c, d, f, g, h, i) =
        ready-Holds _ (init-ready s)
          (a, b, c, d, f, g, recorded _ _ strategy_lab_result-IsStamping now records _ h, i)

    record_capture_run-Holds :
        (now : ℕ) (records : CaptureRunRecord) (s : JsonlStore F)
        → Holds (init s)
        → Holds (init (record_capture_run now records s).0)
    unfolding record_capture_run
    record_capture_run-Holds now records s (a, b, c, d, f, g, h, i) =
        ready-Holds _ (init-ready s)
          (a, b, c, d, f, g, h, recorded _ _ capture_run-IsStamping now records _ i)

    shut-Holds : (s : JsonlStore F) → Holds (init s) → Holds (init (shut s))
    unfolding init shut load_all
    shut-Holds s h = load_all-Holds s h

    serve-Holds :
        (now : ℕ) (call : Call F) (s : JsonlStore F)
        → Holds (init s)
        → Holds (init (serve now call s))
    unfolding serve shut
    serve-Holds now (Call.market_snapshots records) s h =
        insert_market_snapshots-Holds now records s h
    serve-Holds now (Call.underlying_candles records) s h =
        insert_underlying_candles-Holds now records s h
    serve-Holds now (Call.fair_value_signals records) s h =
        insert_fair_value_signals-Holds now records s h
    serve-Holds now (Call.replay_result records) s h = insert_replay_result-Holds now records s h
    serve-Holds now (Call.short_window_signals records) s h =
        insert_short_window_signals-Holds now records s h
    serve-Holds now (Call.short_window_replay_result records) s h =
        insert_short_window_replay_result-Holds now records s h
    serve-Holds now (Call.strategy_lab_result records) s h =
        insert_strategy_lab_result-Holds now records s h
    serve-Holds now (Call.capture_run records) s h = record_capture_run-Holds now records s h
    serve-Holds now Call.open_store s h = ready-Holds (init s) (init-ready s) h
    serve-Holds now Call.close_store s h = shut-Holds s h

    serve_all-Holds :
        (calls : List (ℕ × Call F)) (s : JsonlStore F)
        → Holds (init s)
        → Holds (init (serve_all calls s))
    unfolding serve_all
    serve_all-Holds [] s h = h
    serve_all-Holds ((now, call) ∷ calls) s h =
        serve_all-Holds calls (serve now call s) (serve-Holds now call s h)

-- The row is not of the mock provider with another type of source.
abbrev pub is_genuine : (provider source_type : String) → Bool
is_genuine provider source_type =
    not (same_text provider "mock" && not (same_text source_type "mock"))

assert_store_source-is_genuine :
    (provider source_type : String)
    → assert_store_source (some provider) source_type ≡ none
    → is_genuine provider source_type ≡ true
unfolding assert_store_source assert_provider
assert_store_source-is_genuine provider source_type h = ground arith

module _ {F : Type 0} where
  -- Every table that `init` gives has sound rows, each of them in its file as JSON keeps it; no write
  -- fails, and JSON keeps of a row its number, its source and what it is a duplicate of.
  abbrev pub IsDurable : JsonlStore F → Type 0
  IsDurable s =
      Holds (λ R schema id_of t. IsKept schema id_of t)
        (λ R schema id_of stamping. put_row-IsKept schema id_of stamping)
        (λ R schema id_of. load-IsKept schema id_of) (init s)

  -- In every table that `init` gives the sources of the rows, and of those in the file, are ones that
  -- the check accepts, and JSON keeps them.
  abbrev pub IsAccepted : JsonlStore F → Type 0
  IsAccepted s =
      Holds (λ R schema id_of t. IsChecked schema t)
        (λ R schema id_of stamping. put_row-IsChecked schema id_of stamping)
        (λ R schema id_of. load-IsChecked schema) (init s)

  -- Where no write fails and JSON keeps the number, the source and the compared fields of a row:
  -- whatever calls a store serves, if at first the tables that `init` gives have numbered rows without
  -- duplicates and of accepted sources, each in the file as JSON keeps it, then so it is afterwards.
  pub serve_all-IsDurable :
      (calls : List (ℕ × Call F)) (s : JsonlStore F) → IsDurable s → IsDurable (serve_all calls s)
  serve_all-IsDurable calls s d =
      serve_all-Holds (λ R schema id_of t. IsKept schema id_of t)
        (λ R schema id_of stamping. put_row-IsKept schema id_of stamping)
        (λ R schema id_of. load-IsKept schema id_of) calls s d

  -- Where no write fails, and as above at first: whatever calls the store has served, closing it and
  -- opening it again gives the rows that it had, as JSON keeps them, in every table.
  pub reopened :
      (calls : List (ℕ × Call F)) (s : JsonlStore F)
      → IsDurable s
      → let before = init (serve_all calls s) in
        let again = init (shut before) in
        (again.market_snapshots.rows
          ≡ map before.market_snapshots.json before.market_snapshots.rows)
        × (again.underlying_candles.rows
            ≡ map before.underlying_candles.json before.underlying_candles.rows)
        × (again.fair_value_signals.rows
            ≡ map before.fair_value_signals.json before.fair_value_signals.rows)
        × (again.replay_results.rows ≡ map before.replay_results.json before.replay_results.rows)
        × (again.short_window_signals.rows
            ≡ map before.short_window_signals.json before.short_window_signals.rows)
        × (again.short_window_replay_results.rows
            ≡ map before.short_window_replay_results.json before.short_window_replay_results.rows)
        × (again.strategy_lab_results.rows
            ≡ map before.strategy_lab_results.json before.strategy_lab_results.rows)
        × (again.capture_runs.rows ≡ map before.capture_runs.json before.capture_runs.rows)
  unfolding init shut load_all load_table
  reopened calls s d =
      let (a, b, c, e, f, g, h, i) = serve_all-IsDurable calls s d in
      (a.synced, b.synced, c.synced, e.synced, f.synced, g.synced, h.synced, i.synced)

  -- If at first, in memory and in the files, the sources of all rows are ones that the check accepts,
  -- and JSON keeps the source of a row, then, whatever calls the store has served, and whether or not
  -- its writes have failed, no market snapshot and no candle of the mock provider is stored as
  -- anything but mock data.
  pub mock_stays_mock :
      (calls : List (ℕ × Call F)) (s : JsonlStore F)
      → IsAccepted s
      → All
          (λ r. is_genuine r.provider r.source_type ≡ true)
          (init (serve_all calls s)).market_snapshots.rows
        × All
            (λ r. is_genuine r.provider r.source_type ≡ true)
            (init (serve_all calls s)).underlying_candles.rows
  mock_stays_mock calls s d =
      let (a, b, c, e, f, g, h, i) =
        serve_all-Holds (λ R schema id_of t. IsChecked schema t)
          (λ R schema id_of stamping. put_row-IsChecked schema id_of stamping)
          (λ R schema id_of. load-IsChecked schema) calls s d in
      (
        All-map_weaken _ _ _ (λ r. assert_store_source-is_genuine r.provider r.source_type) a.rows,
        All-map_weaken _ _ _ (λ r. assert_store_source-is_genuine r.provider r.source_type) b.rows,
      )
