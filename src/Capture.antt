-- ===== src/Capture.antt =====
-- The capture of data into the store: packages/research-signals/src/capture/types.ts and
-- scheduler.ts. Runs.antt has the runs of all jobs together, and Schedule.antt the scheduler. The
-- jobs themselves, the regular expression on warnings and `JSON.stringify` are arguments.
pub mod Runs
pub mod Schedule
mod Tests
use mathlib.Core.List.{foldl}
use event_probability_termin.Base.{
  ℕ, ◌+◌, ◌-◌, Bool, false, not, ◌||◌, Option, none, some, List, [], String, if◌then◌else◌, get_or,
  any, ltb, same_text,
}
use event_probability_termin.Store.Table.{InsertSummary, Written}
use event_probability_termin.Store.Jsonl.{JsonlStore, record_capture_run}

pub data CaptureJobName : Type 0 where
  binance_candles polymarket_markets fair_value_signals replay_metrics strategy_lab : CaptureJobName
  snapshot_once capture_once : CaptureJobName

abbrev job_text : CaptureJobName → String
job_text CaptureJobName.binance_candles = "binance-candles"
job_text CaptureJobName.polymarket_markets = "polymarket-markets"
job_text CaptureJobName.fair_value_signals = "fair-value-signals"
job_text CaptureJobName.replay_metrics = "replay-metrics"
job_text CaptureJobName.strategy_lab = "strategy-lab"
job_text CaptureJobName.snapshot_once = "snapshot-once"
job_text CaptureJobName.capture_once = "capture-once"

pub data CaptureRunStatus : Type 0 where
  success partial failed : CaptureRunStatus

abbrev status_text : CaptureRunStatus → String
status_text CaptureRunStatus.success = "success"
status_text CaptureRunStatus.partial = "partial"
status_text CaptureRunStatus.failed = "failed"

pub record CaptureJobResult : Type 0 where
  pub job_name : CaptureJobName
  pub status : CaptureRunStatus
  pub source_type : String
  pub records_inserted : ℕ
  pub records_updated : ℕ
  pub records_skipped : ℕ
  pub warnings : List String
  pub error_message : Option String
  pub started_at : ℕ
  pub finished_at : ℕ
  pub duration_ms : ℕ

abbrev pub empty_summary : InsertSummary
empty_summary = record { records_inserted = 0; records_updated = 0; records_skipped = 0 }

abbrev pub add_summary : InsertSummary → InsertSummary → InsertSummary
add_summary total item = record {
  records_inserted = total.records_inserted + item.records_inserted;
  records_updated = total.records_updated + item.records_updated;
  records_skipped = total.records_skipped + item.records_skipped;
}

unfoldable pub merge_summaries : List InsertSummary → InsertSummary
merge_summaries summaries = foldl add_summary empty_summary summaries

-- Something was inserted or updated.
abbrev pub has_written : (inserted updated : ℕ) → Bool
has_written inserted updated = ltb 0 inserted || ltb 0 updated

-- The text is there, and not empty.
abbrev pub is_message : Option String → Bool
is_message none = false
is_message (some text) = not (same_text text "")

-- `alarming` is the test `/failed|fail|unavailable|timed out|insufficient/i`.
unfoldable pub status_from :
    (alarming : String → Bool) → InsertSummary → List String → Option String → CaptureRunStatus
status_from alarming summary warnings error_message =
    if is_message error_message
    then if has_written summary.records_inserted summary.records_updated
      then CaptureRunStatus.partial
      else CaptureRunStatus.failed
    else if any alarming warnings
    then CaptureRunStatus.partial
    else CaptureRunStatus.success

pub record CaptureRunInput : Type 0 where
  pub job_name : CaptureJobName
  pub started_at : ℕ
  pub source_type : String
  pub summary : InsertSummary
  pub warnings : Option (List String)
  pub error_message : Option String
  pub status : Option CaptureRunStatus

abbrev pub status_of_run : (alarming : String → Bool) → CaptureRunInput → CaptureRunStatus
status_of_run alarming input =
    get_or input.status
      (status_from alarming input.summary (get_or input.warnings []) input.error_message)

-- What is returned of a run that was recorded.
unfoldable pub run_result : (alarming : String → Bool) → ℕ → CaptureRunInput → CaptureJobResult
run_result alarming now input = record {
  job_name = input.job_name;
  status = status_of_run alarming input;
  source_type = input.source_type;
  records_inserted = input.summary.records_inserted;
  records_updated = input.summary.records_updated;
  records_skipped = input.summary.records_skipped;
  warnings = get_or input.warnings [];
  error_message = input.error_message;
  started_at = input.started_at;
  finished_at = now;
  duration_ms = now - input.started_at;
}

module _ {F : Type 0} (alarming : String → Bool) (json : List String → String) where
  -- The result is null where the store throws.
  unfoldable pub record_capture_job_run :
      ℕ → CaptureRunInput → JsonlStore F → JsonlStore F × Option CaptureJobResult
  record_capture_job_run now input store =
      let warnings = get_or input.warnings [] in
      let status = status_of_run alarming input in
      let (stored, written) =
        record_capture_run now
          (record {
            id = none;
            job_name = job_text input.job_name;
            status = status_text status;
            started_at = input.started_at;
            finished_at = now;
            duration_ms = now - input.started_at;
            source_type = input.source_type;
            records_inserted = input.summary.records_inserted;
            records_updated = input.summary.records_updated;
            records_skipped = input.summary.records_skipped;
            error_message = input.error_message;
            warnings_json = json warnings;
          })
          store in
      elim written [
        | Written.done summary ↦ (stored, some (run_result alarming now input))
        | Written.thrown error ↦ (stored, none)
      ]
