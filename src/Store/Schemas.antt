-- ===== src/Store/Schemas.antt =====
-- How packages/research-signals/src/store/jsonl-store.ts checks, compares and completes the rows of
-- each table.
use event_probability_termin.Base.{
  ℕ, ◌+◌, ◌-◌, ◌≡◌, refl, Bool, true, false, ◌&&◌, ◌==◌, leb, none, some, get_or, same_text,
  same_text_refl, arith,
}
use event_probability_termin.Store.Table.{Schema}
use event_probability_termin.Store.Table.Growth.{IsStamping}
use event_probability_termin.Store.Records.{
  assert_store_source, CaptureRunRecord, MarketSnapshotRecord, UnderlyingCandleRecord,
  FairValueSignalRecord, ReplayResultRecord, ShortWindowSignalRecord, ShortWindowReplayResultRecord,
  StrategyLabResultRecord,
}

abbrev pub market_snapshot_dedup_window_ms : ℕ
market_snapshot_dedup_window_ms = 60000

-- `Math.abs` of the difference of two times.
abbrev distance : ℕ → ℕ → ℕ
distance a b = (a - b) + (b - a)

-- A new capture run is always written, and has no `createdAt`.
abbrev pub capture_run_schema : Schema CaptureRunRecord
capture_run_schema = record {
  check = λ r. assert_store_source none r.source_type;
  same = λ r item. false;
  stamp = λ id now r. record r { id = some id };
}

module _ {F : Type 0} where
  abbrev pub same_market_snapshot : (r item : MarketSnapshotRecord F) → Bool
  same_market_snapshot r item =
      same_text item.provider r.provider
      && same_text item.source_type r.source_type
      && same_text item.symbol r.symbol
      && same_text (get_or item.market_id "") (get_or r.market_id "")
      && same_text item.raw_hash r.raw_hash
      && leb (distance item.checked_at r.checked_at) market_snapshot_dedup_window_ms

  abbrev pub market_snapshot_schema : Schema (MarketSnapshotRecord F)
  market_snapshot_schema = record {
    check = λ r. assert_store_source (some r.provider) r.source_type;
    same = same_market_snapshot;
    stamp = λ id now r. record r { id = some id; created_at = some (get_or r.created_at now) };
  }

  abbrev pub same_underlying_candle : (r item : UnderlyingCandleRecord F) → Bool
  same_underlying_candle r item =
      same_text item.symbol r.symbol
      && same_text item.interval r.interval
      && item.open_time == r.open_time
      && same_text item.provider r.provider

  abbrev pub underlying_candle_schema : Schema (UnderlyingCandleRecord F)
  underlying_candle_schema = record {
    check = λ r. assert_store_source (some r.provider) r.source_type;
    same = same_underlying_candle;
    stamp = λ id now r. record r { id = some id; created_at = some (get_or r.created_at now) };
  }

  abbrev pub same_fair_value_signal : (r item : FairValueSignalRecord F) → Bool
  same_fair_value_signal r item =
      same_text item.source_type r.source_type
      && same_text item.symbol r.symbol
      && same_text item.market_id r.market_id
      && item.signal_time == r.signal_time
      && same_text item.side r.side

  abbrev pub fair_value_signal_schema : Schema (FairValueSignalRecord F)
  fair_value_signal_schema = record {
    check = λ r. assert_store_source none r.source_type;
    same = same_fair_value_signal;
    stamp = λ id now r. record r { id = some id; created_at = some (get_or r.created_at now) };
  }

  abbrev pub same_replay_result : (r item : ReplayResultRecord F) → Bool
  same_replay_result r item =
      same_text item.source_type r.source_type
      && same_text item.symbol r.symbol
      && same_text item.window r.window
      && same_text item.strategy_id r.strategy_id
      && item.checked_at == r.checked_at

  abbrev pub replay_result_schema : Schema (ReplayResultRecord F)
  replay_result_schema = record {
    check = λ r. assert_store_source none r.source_type;
    same = same_replay_result;
    stamp = λ id now r. record r { id = some id; created_at = some (get_or r.created_at now) };
  }

  abbrev pub same_short_window_signal : (r item : ShortWindowSignalRecord F) → Bool
  same_short_window_signal r item =
      same_text item.source_type r.source_type
      && same_text item.venue r.venue
      && same_text item.symbol r.symbol
      && same_text item.interval r.interval
      && same_text item.event_id r.event_id
      && item.signal_time == r.signal_time
      && same_text item.side r.side

  abbrev pub short_window_signal_schema : Schema (ShortWindowSignalRecord F)
  short_window_signal_schema = record {
    check = λ r. assert_store_source none r.source_type;
    same = same_short_window_signal;
    stamp = λ id now r. record r { id = some id; created_at = some (get_or r.created_at now) };
  }

  abbrev pub same_short_window_replay_result : (r item : ShortWindowReplayResultRecord F) → Bool
  same_short_window_replay_result r item =
      same_text item.source_type r.source_type
      && same_text item.venue r.venue
      && same_text item.symbol r.symbol
      && same_text item.interval r.interval
      && same_text item.window r.window
      && item.checked_at == r.checked_at

  abbrev pub short_window_replay_result_schema : Schema (ShortWindowReplayResultRecord F)
  short_window_replay_result_schema = record {
    check = λ r. assert_store_source none r.source_type;
    same = same_short_window_replay_result;
    stamp = λ id now r. record r { id = some id; created_at = some (get_or r.created_at now) };
  }

  abbrev pub same_strategy_lab_result : (r item : StrategyLabResultRecord F) → Bool
  same_strategy_lab_result r item =
      same_text item.source_type r.source_type
      && same_text item.symbol r.symbol
      && same_text item.window r.window
      && same_text item.strategy_id r.strategy_id
      && same_text item.parameter_set_json r.parameter_set_json
      && item.checked_at == r.checked_at

  abbrev pub strategy_lab_result_schema : Schema (StrategyLabResultRecord F)
  strategy_lab_result_schema = record {
    check = λ r. assert_store_source none r.source_type;
    same = same_strategy_lab_result;
    stamp = λ id now r. record r { id = some id; created_at = some (get_or r.created_at now) };
  }

  pub market_snapshot-IsStamping : IsStamping (market_snapshot_schema) (λ r. r.id)
  market_snapshot-IsStamping = record {
    numbers = λ id now r. refl;
    keeps_check = λ id now r. refl;
    keeps = λ id now r q. refl;
    keeps_stored = λ id now r q. refl;
  }

  pub underlying_candle-IsStamping : IsStamping (underlying_candle_schema) (λ r. r.id)
  underlying_candle-IsStamping = record {
    numbers = λ id now r. refl;
    keeps_check = λ id now r. refl;
    keeps = λ id now r q. refl;
    keeps_stored = λ id now r q. refl;
  }

  pub fair_value_signal-IsStamping : IsStamping (fair_value_signal_schema) (λ r. r.id)
  fair_value_signal-IsStamping = record {
    numbers = λ id now r. refl;
    keeps_check = λ id now r. refl;
    keeps = λ id now r q. refl;
    keeps_stored = λ id now r q. refl;
  }

  pub replay_result-IsStamping : IsStamping (replay_result_schema) (λ r. r.id)
  replay_result-IsStamping = record {
    numbers = λ id now r. refl;
    keeps_check = λ id now r. refl;
    keeps = λ id now r q. refl;
    keeps_stored = λ id now r q. refl;
  }

  pub short_window_signal-IsStamping : IsStamping (short_window_signal_schema) (λ r. r.id)
  short_window_signal-IsStamping = record {
    numbers = λ id now r. refl;
    keeps_check = λ id now r. refl;
    keeps = λ id now r q. refl;
    keeps_stored = λ id now r q. refl;
  }

  pub short_window_replay_result-IsStamping :
      IsStamping (short_window_replay_result_schema) (λ r. r.id)
  short_window_replay_result-IsStamping = record {
    numbers = λ id now r. refl;
    keeps_check = λ id now r. refl;
    keeps = λ id now r q. refl;
    keeps_stored = λ id now r q. refl;
  }

  pub strategy_lab_result-IsStamping : IsStamping (strategy_lab_result_schema) (λ r. r.id)
  strategy_lab_result-IsStamping = record {
    numbers = λ id now r. refl;
    keeps_check = λ id now r. refl;
    keeps = λ id now r q. refl;
    keeps_stored = λ id now r q. refl;
  }

  pub same_market_snapshot_refl : (r : MarketSnapshotRecord F) → same_market_snapshot r r ≡ true
  same_market_snapshot_refl r = ground (
    arith,
    same_text_refl r.provider,
    same_text_refl r.source_type,
    same_text_refl r.symbol,
    same_text_refl (get_or r.market_id ""),
    same_text_refl r.raw_hash,
  )

  pub same_underlying_candle_refl :
      (r : UnderlyingCandleRecord F) → same_underlying_candle r r ≡ true
  same_underlying_candle_refl r =
      ground (arith, same_text_refl r.symbol, same_text_refl r.interval, same_text_refl r.provider)

  pub same_fair_value_signal_refl :
      (r : FairValueSignalRecord F) → same_fair_value_signal r r ≡ true
  same_fair_value_signal_refl r = ground (
    arith,
    same_text_refl r.source_type,
    same_text_refl r.symbol,
    same_text_refl r.market_id,
    same_text_refl r.side,
  )

  pub same_replay_result_refl : (r : ReplayResultRecord F) → same_replay_result r r ≡ true
  same_replay_result_refl r = ground (
    arith,
    same_text_refl r.source_type,
    same_text_refl r.symbol,
    same_text_refl r.window,
    same_text_refl r.strategy_id,
  )

  pub same_short_window_signal_refl :
      (r : ShortWindowSignalRecord F) → same_short_window_signal r r ≡ true
  same_short_window_signal_refl r = ground (
    arith,
    same_text_refl r.source_type,
    same_text_refl r.venue,
    same_text_refl r.symbol,
    same_text_refl r.interval,
    same_text_refl r.event_id,
    same_text_refl r.side,
  )

  pub same_short_window_replay_result_refl :
      (r : ShortWindowReplayResultRecord F) → same_short_window_replay_result r r ≡ true
  same_short_window_replay_result_refl r = ground (
    arith,
    same_text_refl r.source_type,
    same_text_refl r.venue,
    same_text_refl r.symbol,
    same_text_refl r.interval,
    same_text_refl r.window,
  )

  pub same_strategy_lab_result_refl :
      (r : StrategyLabResultRecord F) → same_strategy_lab_result r r ≡ true
  same_strategy_lab_result_refl r = ground (
    arith,
    same_text_refl r.source_type,
    same_text_refl r.symbol,
    same_text_refl r.window,
    same_text_refl r.strategy_id,
    same_text_refl r.parameter_set_json,
  )

pub capture_run-IsStamping : IsStamping capture_run_schema (λ r. r.id)
capture_run-IsStamping = record {
  numbers = λ id now r. refl;
  keeps_check = λ id now r. refl;
  keeps = λ id now r q. refl;
  keeps_stored = λ id now r q. refl;
}
