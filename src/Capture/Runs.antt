-- ===== src/Capture/Runs.antt =====
-- `runCaptureOnce` and `runSnapshotCaptureOnce` of packages/research-signals/src/capture/scheduler.ts:
-- jobs in sequence, and the run that sums them up.
pub mod Totals
use event_probability_termin.Base.{
  ℕ, ◌+◌, Bool, true, false, Option, none, some, List, [], ◌∷◌, ◌++◌, map, String, if◌then◌else◌,
  any, all,
}
use event_probability_termin.Store.Table.{InsertSummary}
use event_probability_termin.Store.Jsonl.{JsonlStore}
use event_probability_termin.Capture.{
  CaptureJobName, CaptureRunStatus, CaptureJobResult, CaptureRunInput, merge_summaries, has_written,
  record_capture_job_run,
}

unfoldable pub result_to_summary : CaptureJobResult → InsertSummary
result_to_summary result = record {
  records_inserted = result.records_inserted;
  records_updated = result.records_updated;
  records_skipped = result.records_skipped;
}

abbrev pub is_failed : CaptureRunStatus → Bool
is_failed CaptureRunStatus.failed = true
is_failed _ = false

abbrev pub is_failed_or_partial : CaptureRunStatus → Bool
is_failed_or_partial CaptureRunStatus.success = false
is_failed_or_partial _ = true

unfoldable pub status_of_results : List CaptureJobResult → CaptureRunStatus
status_of_results results =
    if any (λ r. is_failed_or_partial r.status) results
    then if any (λ r. has_written r.records_inserted r.records_updated) results
      then CaptureRunStatus.partial
      else CaptureRunStatus.failed
    else CaptureRunStatus.success

abbrev pub warnings_of : List CaptureJobResult → List String
warnings_of [] = []
warnings_of (r ∷ rs) = r.warnings ++ warnings_of rs

-- The input of the run that sums up, `all_failed` being the message where every job has failed.
unfoldable pub summary_run :
    CaptureJobName → ℕ → (source_type all_failed : String) → List CaptureJobResult → CaptureRunInput
unfolding result_to_summary status_of_results merge_summaries
summary_run job_name started_at source_type all_failed results = record {
  job_name = job_name;
  started_at = started_at;
  source_type = source_type;
  summary = merge_summaries (map result_to_summary results);
  warnings = some (warnings_of results);
  error_message = if all (λ r. is_failed r.status) results then some all_failed else none;
  status = some (status_of_results results);
}

-- A job changes the store, and returns a result or throws.
abbrev pub Job : Type 0 → Type 0
Job F = JsonlStore F → JsonlStore F × Option CaptureJobResult

-- The jobs of the other files of the folder.
pub record Jobs (F : Type 0) : Type 0 where
  pub binance_candles : Job F
  pub polymarket_markets : Job F
  pub fair_value_signals : Job F
  pub replay_metrics : Job F
  pub strategy_lab : Job F

pub record CaptureContext : Type 0 where
  -- the regular expression on warnings, and `JSON.stringify`
  pub alarming : String → Bool
  pub json : List String → String
  pub use_mock : Bool
  pub started_at : ℕ
  pub finished_at : ℕ

module _ {F : Type 0} where
  -- `[await …, await …]`: what throws ends it.
  unfoldable pub run_jobs :
      List (Job F) → JsonlStore F → JsonlStore F × Option (List CaptureJobResult)
  run_jobs [] store = (store, some [])
  run_jobs (job ∷ jobs) store =
      let (next, first) = job store in
      let (last, rest) = run_jobs jobs next in
      elim first [
        | none ↦ (next, none)
        | some result ↦ (last, elim rest [ none ↦ none | some results ↦ some (result ∷ results) ])
      ]

  -- Records the run that sums up, and adds its result to those of the jobs.
  unfoldable pub conclude :
      CaptureContext
      → CaptureJobName
      → String
      → List CaptureJobResult
      → JsonlStore F
      → JsonlStore F × Option (List CaptureJobResult)
  conclude context job_name all_failed results store =
      let source_type = if context.use_mock then "mock" else "live" in
      let (stored, aggregate) =
        record_capture_job_run context.alarming context.json context.finished_at
          (summary_run job_name context.started_at source_type all_failed results) store in
      (stored, elim aggregate [ none ↦ none | some result ↦ some (results ++ result ∷ []) ])

  unfoldable pub run_and_conclude :
      CaptureContext
      → CaptureJobName
      → String
      → List (Job F)
      → JsonlStore F
      → JsonlStore F × Option (List CaptureJobResult)
  unfolding conclude run_jobs
  run_and_conclude context job_name all_failed jobs store =
      let (next, outcome) = run_jobs jobs store in
      elim outcome [
        | none ↦ (next, none)
        | some results ↦ conclude context job_name all_failed results next
      ]

  abbrev pub all_jobs : Jobs F → List (Job F)
  all_jobs jobs =
      jobs.binance_candles ∷ jobs.polymarket_markets ∷ jobs.fair_value_signals ∷ jobs.replay_metrics
      ∷ jobs.strategy_lab ∷ []

  abbrev pub snapshot_jobs : Jobs F → List (Job F)
  snapshot_jobs jobs = jobs.binance_candles ∷ jobs.polymarket_markets ∷ jobs.fair_value_signals ∷ []

  unfoldable pub run_capture_once :
      CaptureContext → Jobs F → JsonlStore F → JsonlStore F × Option (List CaptureJobResult)
  unfolding run_and_conclude
  run_capture_once context jobs store =
      run_and_conclude context CaptureJobName.capture_once "Every capture job failed."
        (all_jobs jobs) store

  unfoldable pub run_snapshot_capture_once :
      CaptureContext → Jobs F → JsonlStore F → JsonlStore F × Option (List CaptureJobResult)
  unfolding run_and_conclude
  run_snapshot_capture_once context jobs store =
      run_and_conclude context CaptureJobName.snapshot_once "Every snapshot capture job failed."
        (snapshot_jobs jobs) store
