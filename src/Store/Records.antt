-- ===== src/Store/Records.antt =====
-- The rows of the tables, from packages/research-signals/src/store/types.ts, and the check of a
-- row's source, from schema.ts. A column that holds a text, or one of a fixed set of texts, is a
-- String, as it is at run time; a time is its count of milliseconds; an optional column that is
-- absent is null.
use event_probability_termin.Base.{
  ℕ, Bool, not, ◌&&◌, Option, none, some, List, [], ◌∷◌, String, any, if◌then◌else◌, same_text,
}
use event_probability_termin.Store.Table.{StoreError}

module _ (F : Type 0) where
  pub record MarketSnapshotRecord : Type 0 where
    pub id : Option ℕ
    pub provider : String
    pub source_type : String
    pub symbol : String
    pub market_id : Option String
    pub question : Option String
    pub token_id_yes : Option String
    pub token_id_no : Option String
    pub yes_price : Option F
    pub no_price : Option F
    pub yes_midpoint : Option F
    pub no_midpoint : Option F
    pub spread : Option F
    pub liquidity_status : Option String
    pub raw_hash : String
    pub checked_at : ℕ
    pub created_at : Option ℕ

  pub record UnderlyingCandleRecord : Type 0 where
    pub id : Option ℕ
    pub provider : String
    pub source_type : String
    pub symbol : String
    pub interval : String
    pub open_time : ℕ
    pub close_time : ℕ
    pub open_price : F
    pub high : F
    pub low : F
    pub close : F
    pub volume : F
    pub created_at : Option ℕ

  pub record FairValueSignalRecord : Type 0 where
    pub id : Option ℕ
    pub source_type : String
    pub symbol : String
    pub market_id : String
    pub signal_time : ℕ
    pub side : String
    pub model_probability_yes : Option F
    pub market_probability_yes : Option F
    pub edge : Option F
    pub confidence : Option F
    pub reason : String
    pub reject_reasons_json : String
    pub is_research_only : Bool
    pub created_at : Option ℕ

  pub record ReplayResultRecord : Type 0 where
    pub id : Option ℕ
    pub source_type : String
    pub symbol : String
    pub window : String
    pub strategy_id : String
    pub sample_count : ℕ
    pub actionable_count : ℕ
    pub win_count : ℕ
    pub loss_count : ℕ
    pub pending_count : ℕ
    pub unresolved_count : ℕ
    pub rejected_count : ℕ
    pub no_signal_count : ℕ
    pub win_rate : Option F
    pub coverage_rate : Option F
    pub rejection_rate : Option F
    pub average_edge : Option F
    pub average_confidence : Option F
    pub theoretical_pnl : Option F
    pub max_drawdown : Option F
    pub warnings_json : String
    pub checked_at : ℕ
    pub created_at : Option ℕ
    pub payload_json : Option String

  pub record ShortWindowSignalRecord : Type 0 where
    pub id : Option ℕ
    pub source_type : String
    pub venue : String
    pub symbol : String
    pub interval : String
    pub event_id : String
    pub signal_time : ℕ
    pub side : String
    pub confidence : Option F
    pub score : Option F
    pub start_reference_price : Option F
    pub current_price : Option F
    pub result_status : Option String
    pub created_at : Option ℕ

  pub record ShortWindowReplayResultRecord : Type 0 where
    pub id : Option ℕ
    pub source_type : String
    pub venue : String
    pub symbol : String
    pub interval : String
    pub window : String
    pub total_events : ℕ
    pub actionable_count : ℕ
    pub win_count : ℕ
    pub loss_count : ℕ
    pub wait_count : ℕ
    pub rejected_count : ℕ
    pub win_rate : Option F
    pub warnings_json : String
    pub checked_at : ℕ
    pub created_at : Option ℕ
    pub payload_json : Option String

  pub record StrategyLabResultRecord : Type 0 where
    pub id : Option ℕ
    pub source_type : String
    pub symbol : String
    pub window : String
    pub strategy_id : String
    pub parameter_set_json : String
    pub score : Option F
    pub win_rate : Option F
    pub actionable_count : ℕ
    pub theoretical_pnl : Option F
    pub max_drawdown : Option F
    pub overfit_risk : String
    pub consistency_score : Option F
    pub warnings_json : String
    pub checked_at : ℕ
    pub created_at : Option ℕ
    pub payload_json : Option String

pub record CaptureRunRecord : Type 0 where
  pub id : Option ℕ
  pub job_name : String
  pub status : String
  pub started_at : ℕ
  pub finished_at : ℕ
  pub duration_ms : ℕ
  pub source_type : String
  pub records_inserted : ℕ
  pub records_updated : ℕ
  pub records_skipped : ℕ
  pub error_message : Option String
  pub warnings_json : String

abbrev source_types : List String
source_types = "live" ∷ "mock" ∷ "fixture" ∷ []

abbrev providers : List String
providers = "polymarket-gamma" ∷ "polymarket-clob-public" ∷ "binance-spot-public" ∷ "mock" ∷ []

abbrev has : List String → String → Bool
has set value = any (same_text value) set

-- An absent provider is not checked, and neither is the empty text, which is falsy.
unfoldable pub assert_provider : String → String → Option StoreError
assert_provider provider source_type =
    if not (same_text provider "") && not (has providers provider)
    then some StoreError.unsupported_provider
    else if same_text provider "mock" && not (same_text source_type "mock")
    then some StoreError.mock_source
    else none

unfoldable pub assert_store_source : Option String → String → Option StoreError
unfolding assert_provider
assert_store_source provider source_type =
    if not (has source_types source_type)
    then some StoreError.unsupported_source_type
    else elim provider [ none ↦ none | some p ↦ assert_provider p source_type ]
