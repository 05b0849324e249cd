-- ===== src/Store/Queries.antt =====
-- The queries of packages/research-signals/src/store/jsonl-store.ts on rows: candles of a span, the
-- latest replay result, and the capture runs. `init` has been called by each, and is its first step.
pub mod Sorted
use Prim.Native.Nat.{min, max}
use event_probability_termin.Base.{
  ℕ, Bool, true, ◌&&◌, ◌||◌, Option, none, some, List, String, ltb, leb, filter, take, first?, sort,
  get_or, same_text,
}
use event_probability_termin.Store.Records.{
  UnderlyingCandleRecord, CaptureRunRecord, ReplayResultRecord,
}
use event_probability_termin.Store.Jsonl.{JsonlStore, init}

pub record CandleQuery : Type 0 where
  pub symbol : String
  pub interval : String
  pub start_time : ℕ
  pub end_time : ℕ
  pub provider : Option String

-- `!input.provider || item.provider === input.provider`
abbrev pub is_wanted_provider : Option String → String → Bool
is_wanted_provider none provider = true
is_wanted_provider (some wanted) provider = same_text wanted "" || same_text provider wanted

module _ {F : Type 0} where
  abbrev pub answers : CandleQuery → UnderlyingCandleRecord F → Bool
  answers query item =
      same_text item.symbol query.symbol
      && same_text item.interval query.interval
      && is_wanted_provider query.provider item.provider
      && leb query.start_time item.open_time
      && leb item.open_time query.end_time

  unfoldable pub get_underlying_candles :
      CandleQuery → JsonlStore F → List (UnderlyingCandleRecord F)
  get_underlying_candles query store =
      sort (λ left right. ltb left.open_time right.open_time)
        (filter (answers query) (init store).underlying_candles.rows)

  unfoldable pub get_capture_runs : Option ℕ → JsonlStore F → List CaptureRunRecord
  get_capture_runs limit store =
      take (max 1 (min 200 (get_or limit 20)))
        (sort (λ a b. ltb b.finished_at a.finished_at) (init store).capture_runs.rows)

  abbrev pub is_result_of : (symbol window strategy_id : String) → ReplayResultRecord F → Bool
  is_result_of symbol window strategy_id item =
      same_text item.symbol symbol
      && same_text item.window window
      && same_text item.strategy_id strategy_id

  unfoldable pub get_latest_replay_result :
      (symbol window : String) → Option String → JsonlStore F → Option (ReplayResultRecord F)
  get_latest_replay_result symbol window strategy_id store = first? (
      sort (λ a b. ltb b.checked_at a.checked_at)
        (filter (is_result_of symbol window (get_or strategy_id "fair-value-v1"))
          (init store).replay_results.rows))
