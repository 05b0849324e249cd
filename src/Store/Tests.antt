-- ===== src/Store/Tests.antt =====
-- The theorems on the store at concrete rows.
use event_probability_termin.Base.{
  map, leb, ◌⊎◌, ℕ, ◌+◌, ◌≡◌, refl, true, false, Option, none, List, [], ◌∷◌, All,
}
use event_probability_termin.Store.Table.{
  InsertSummary, Written, Table, Schema, insert_into, insert_rows, put_row, append_row, load_table,
  StoreError,
}
use event_probability_termin.Store.Table.Growth.{IsSound, LacksLast, insert-IsSound}
use event_probability_termin.Store.Table.Kept.{IsKept, IsChecked}
use event_probability_termin.Store.Table.Repeat.{insert_twice}
use event_probability_termin.Store.Records.{
  UnderlyingCandleRecord, assert_store_source, assert_provider,
}
use event_probability_termin.Store.Schemas.{
  underlying_candle_schema, underlying_candle-IsStamping, same_underlying_candle_refl,
}
use event_probability_termin.Store.Jsonl.{JsonlStore, Call, init, shut, serve_all, load_all}
use event_probability_termin.Store.Jsonl.Durable.{
  IsDurable, IsAccepted, is_genuine, reopened, mock_stays_mock,
}

abbrev candle : ℕ → UnderlyingCandleRecord ℕ
candle time = record {
  id = none;
  provider = "binance-spot-public";
  source_type = "live";
  symbol = "BTCUSDT";
  interval = "1m";
  open_time = time;
  close_time = time + 59_999;
  open_price = 100;
  high = 101;
  low = 99;
  close = 100;
  volume = 7;
  created_at = none;
}

abbrev candles : List (UnderlyingCandleRecord ℕ)
candles = candle 0 ∷ candle 60_000 ∷ candle 0 ∷ []

abbrev none_yet : {R : Type 0} → Table R
none_yet = record { rows = []; lines = []; json = λ r. r; is_written = λ now id. true }

none_yet-IsKept :
    {R : Type 0} (schema : Schema R) (id_of : R → Option ℕ) → IsKept schema id_of none_yet
none_yet-IsKept schema id_of = record {
  sound = record { numbered = tt; distinct = tt; checked = tt };
  synced = refl;
  written = λ now id. refl;
  json = record {
    once = λ r. refl;
    numbers = λ r. refl;
    keeps_check = λ r. refl;
    keeps = λ r q. refl;
    keeps_stored = λ r q. refl;
  };
}

none_yet-IsChecked : {R : Type 0} (schema : Schema R) → IsChecked schema none_yet
none_yet-IsChecked schema = record { rows = tt; lines = tt; json = λ r. refl }

abbrev after : Table (UnderlyingCandleRecord ℕ)
after = (insert_into underlying_candle_schema 5 candles none_yet).0

abbrev summary : InsertSummary
summary = record { records_inserted = 2; records_updated = 0; records_skipped = 1 }

-- A disk that is full from the second row on.
abbrev full_disk : Table (UnderlyingCandleRecord ℕ)
full_disk = record none_yet { is_written = λ now id. leb id 1 }

insert-IsSound_example :
    let (next, outcome) = insert_into underlying_candle_schema 5 candles full_disk in
    IsSound underlying_candle_schema (λ r. r.id) next.rows
    × ((next.lines ≡ map (λ r. r) next.rows)
        ⊎ ((outcome ≡ Written.thrown StoreError.write_failed)
            × LacksLast underlying_candle_schema (λ r. r.id) underlying_candle-IsStamping next))
unfolding insert_into insert_rows put_row append_row assert_store_source assert_provider
insert-IsSound_example =
    insert-IsSound underlying_candle_schema (λ r. r.id) underlying_candle-IsStamping 5 candles
      full_disk (record { numbered = tt; distinct = tt; checked = tt }) refl

insert_twice_example : insert_into underlying_candle_schema 9 candles after ≡ (
  after,
  Written.done (record { records_inserted = 0; records_updated = 0; records_skipped = 3 }),
)
unfolding insert_into insert_rows put_row append_row assert_store_source assert_provider
insert_twice_example =
    insert_twice underlying_candle_schema (λ r. r.id) underlying_candle-IsStamping
      same_underlying_candle_refl 5 9 candles none_yet after summary refl

abbrev empty_store : JsonlStore ℕ
empty_store = record {
  initialized = false;
  market_snapshots = none_yet;
  underlying_candles = none_yet;
  fair_value_signals = none_yet;
  replay_results = none_yet;
  short_window_signals = none_yet;
  short_window_replay_results = none_yet;
  strategy_lab_results = none_yet;
  capture_runs = none_yet;
}

abbrev calls : List (ℕ × Call ℕ)
calls =
    (5, Call.underlying_candles candles)
    ∷ (6, Call.close_store)
    ∷ (9, Call.underlying_candles candles)
    ∷ []

empty_store-IsDurable : IsDurable empty_store
unfolding init load_all load_table
empty_store-IsDurable = (
  none_yet-IsKept _ _,
  none_yet-IsKept _ _,
  none_yet-IsKept _ _,
  none_yet-IsKept _ _,
  none_yet-IsKept _ _,
  none_yet-IsKept _ _,
  none_yet-IsKept _ _,
  none_yet-IsKept _ _,
)

empty_store-IsAccepted : IsAccepted empty_store
unfolding init load_all load_table
empty_store-IsAccepted = (
  none_yet-IsChecked _,
  none_yet-IsChecked _,
  none_yet-IsChecked _,
  none_yet-IsChecked _,
  none_yet-IsChecked _,
  none_yet-IsChecked _,
  none_yet-IsChecked _,
  none_yet-IsChecked _,
)

reopened_example :
    let before = init (serve_all calls empty_store) in
    let again = init (shut before) in
    (again.market_snapshots.rows ≡ map before.market_snapshots.json before.market_snapshots.rows)
    × (again.underlying_candles.rows
        ≡ map before.underlying_candles.json before.underlying_candles.rows)
    × (again.fair_value_signals.rows
        ≡ map before.fair_value_signals.json before.fair_value_signals.rows)
    × (again.replay_results.rows ≡ map before.replay_results.json before.replay_results.rows)
    × (again.short_window_signals.rows
        ≡ map before.short_window_signals.json before.short_window_signals.rows)
    × (again.short_window_replay_results.rows
        ≡ map before.short_window_replay_results.json before.short_window_replay_results.rows)
    × (again.strategy_lab_results.rows
        ≡ map before.strategy_lab_results.json before.strategy_lab_results.rows)
    × (again.capture_runs.rows ≡ map before.capture_runs.json before.capture_runs.rows)
reopened_example = reopened calls empty_store empty_store-IsDurable

mock_stays_mock_example :
    All
      (λ r. is_genuine r.provider r.source_type ≡ true)
      (init (serve_all calls empty_store)).market_snapshots.rows
    × All
        (λ r. is_genuine r.provider r.source_type ≡ true)
        (init (serve_all calls empty_store)).underlying_candles.rows
mock_stays_mock_example = mock_stays_mock calls empty_store empty_store-IsAccepted
