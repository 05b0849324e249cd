-- ===== src/Store/Jsonl.antt =====
-- The store of packages/research-signals/src/store/jsonl-store.ts. A table is the array in memory
-- together with the lines of its file, each line kept as the row that `JSON.parse` makes of it.
pub mod Durable
use event_probability_termin.Base.{ℕ, Bool, true, false, List, [], ◌∷◌, if◌then◌else◌}
use event_probability_termin.Store.Table.{Table, Written, insert_into, insert_record, load_table}
use event_probability_termin.Store.Records.{
  MarketSnapshotRecord, UnderlyingCandleRecord, FairValueSignalRecord, ReplayResultRecord,
  ShortWindowSignalRecord, ShortWindowReplayResultRecord, StrategyLabResultRecord, CaptureRunRecord,
}
use event_probability_termin.Store.Schemas.{
  market_snapshot_schema, underlying_candle_schema, fair_value_signal_schema, replay_result_schema,
  short_window_signal_schema, short_window_replay_result_schema, strategy_lab_result_schema,
  capture_run_schema,
}

pub record JsonlStore (F : Type 0) : Type 0 where
  pub initialized : Bool
  pub market_snapshots : Table (MarketSnapshotRecord F)
  pub underlying_candles : Table (UnderlyingCandleRecord F)
  pub fair_value_signals : Table (FairValueSignalRecord F)
  pub replay_results : Table (ReplayResultRecord F)
  pub short_window_signals : Table (ShortWindowSignalRecord F)
  pub short_window_replay_results : Table (ShortWindowReplayResultRecord F)
  pub strategy_lab_results : Table (StrategyLabResultRecord F)
  pub capture_runs : Table CaptureRunRecord

-- The calls of a client that change the store.
pub data Call (F : Type 0) : Type 0 where
  market_snapshots : List (MarketSnapshotRecord F) → Call F
  underlying_candles : List (UnderlyingCandleRecord F) → Call F
  fair_value_signals : List (FairValueSignalRecord F) → Call F
  replay_result : ReplayResultRecord F → Call F
  short_window_signals : List (ShortWindowSignalRecord F) → Call F
  short_window_replay_result : ShortWindowReplayResultRecord F → Call F
  strategy_lab_result : StrategyLabResultRecord F → Call F
  capture_run : CaptureRunRecord → Call F
  open_store close_store : Call F

module _ {F : Type 0} where
  unfoldable pub load_all : JsonlStore F → JsonlStore F
  load_all s = record {
    initialized = true;
    market_snapshots = load_table s.market_snapshots;
    underlying_candles = load_table s.underlying_candles;
    fair_value_signals = load_table s.fair_value_signals;
    replay_results = load_table s.replay_results;
    short_window_signals = load_table s.short_window_signals;
    short_window_replay_results = load_table s.short_window_replay_results;
    strategy_lab_results = load_table s.strategy_lab_results;
    capture_runs = load_table s.capture_runs;
  }

  unfoldable pub init : JsonlStore F → JsonlStore F
  unfolding load_all
  init s = if s.initialized then s else load_all s

  unfoldable pub shut : JsonlStore F → JsonlStore F
  shut s = record s { initialized = false }

  unfoldable pub insert_market_snapshots :
      ℕ → List (MarketSnapshotRecord F) → JsonlStore F → JsonlStore F × Written
  unfolding init
  insert_market_snapshots now records s =
      let s' = init s in
      let result = insert_into market_snapshot_schema now records s'.market_snapshots in
      (record s' { market_snapshots = result.0 }, result.1)

  unfoldable pub insert_underlying_candles :
      ℕ → List (UnderlyingCandleRecord F) → JsonlStore F → JsonlStore F × Written
  unfolding init
  insert_underlying_candles now records s =
      let s' = init s in
      let result = insert_into underlying_candle_schema now records s'.underlying_candles in
      (record s' { underlying_candles = result.0 }, result.1)

  unfoldable pub insert_fair_value_signals :
      ℕ → List (FairValueSignalRecord F) → JsonlStore F → JsonlStore F × Written
  unfolding init
  insert_fair_value_signals now records s =
      let s' = init s in
      let result = insert_into fair_value_signal_schema now records s'.fair_value_signals in
      (record s' { fair_value_signals = result.0 }, result.1)

  unfoldable pub insert_replay_result :
      ℕ → ReplayResultRecord F → JsonlStore F → JsonlStore F × Written
  unfolding init
  insert_replay_result now r s =
      let s' = init s in
      let result = insert_record replay_result_schema now r s'.replay_results in
      (record s' { replay_results = result.0 }, result.1)

  unfoldable pub insert_short_window_signals :
      ℕ → List (ShortWindowSignalRecord F) → JsonlStore F → JsonlStore F × Written
  unfolding init
  insert_short_window_signals now records s =
      let s' = init s in
      let result = insert_into short_window_signal_schema now records s'.short_window_signals in
      (record s' { short_window_signals = result.0 }, result.1)

  unfoldable pub insert_short_window_replay_result :
      ℕ → ShortWindowReplayResultRecord F → JsonlStore F → JsonlStore F × Written
  unfolding init
  insert_short_window_replay_result now r s =
      let s' = init s in
      let result =
        insert_record short_window_replay_result_schema now r s'.short_window_replay_results in
      (record s' { short_window_replay_results = result.0 }, result.1)

  unfoldable pub insert_strategy_lab_result :
      ℕ → StrategyLabResultRecord F → JsonlStore F → JsonlStore F × Written
  unfolding init
  insert_strategy_lab_result now r s =
      let s' = init s in
      let result = insert_record strategy_lab_result_schema now r s'.strategy_lab_results in
      (record s' { strategy_lab_results = result.0 }, result.1)

  unfoldable pub record_capture_run : ℕ → CaptureRunRecord → JsonlStore F → JsonlStore F × Written
  unfolding init
  record_capture_run now r s =
      let s' = init s in
      let result = insert_record capture_run_schema now r s'.capture_runs in
      (record s' { capture_runs = result.0 }, result.1)

  unfoldable pub serve : ℕ → Call F → JsonlStore F → JsonlStore F
  serve now (Call.market_snapshots records) s = (insert_market_snapshots now records s).0
  serve now (Call.underlying_candles records) s = (insert_underlying_candles now records s).0
  serve now (Call.fair_value_signals records) s = (insert_fair_value_signals now records s).0
  serve now (Call.replay_result r) s = (insert_replay_result now r s).0
  serve now (Call.short_window_signals records) s = (insert_short_window_signals now records s).0
  serve now (Call.short_window_replay_result r) s = (insert_short_window_replay_result now r s).0
  serve now (Call.strategy_lab_result r) s = (insert_strategy_lab_result now r s).0
  serve now (Call.capture_run r) s = (record_capture_run now r s).0
  serve now Call.open_store s = init s
  serve now Call.close_store s = shut s

  -- A run of calls, each with the time at which it is made.
  unfoldable pub serve_all : List (ℕ × Call F) → JsonlStore F → JsonlStore F
  serve_all [] s = s
  serve_all ((now, call) ∷ calls) s = serve_all calls (serve now call s)
