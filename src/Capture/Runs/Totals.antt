-- ===== src/Capture/Runs/Totals.antt =====
-- What the run that sums up reports of the runs of the jobs.
use mathlib.Core.List.{foldl}
use mathlib.Core.Path.{subst}
use event_probability_termin.Base.{
  ℕ, ◌+◌, ◌≡◌, ◌↔◌, inl, inr, Bool, false, some, List, [], ◌∷◌, ◌++◌, map, String, if◌then◌else◌,
  any, All, arith, Option-cases,
}
use event_probability_termin.Store.Table.{InsertSummary}
use event_probability_termin.Store.Jsonl.{JsonlStore}
use event_probability_termin.Capture.{
  CaptureJobName, CaptureRunStatus, CaptureJobResult, CaptureRunInput, empty_summary, add_summary,
  merge_summaries, has_written, record_capture_job_run, run_result,
}
use event_probability_termin.Capture.Runs.{
  result_to_summary, is_failed_or_partial, status_of_results, summary_run, Job, CaptureContext,
  run_jobs, conclude, run_and_conclude, Jobs, all_jobs, snapshot_jobs, run_capture_once,
  run_snapshot_capture_once,
}

abbrev pub total : (CaptureJobResult → ℕ) → List CaptureJobResult → ℕ
total count [] = 0
total count (r ∷ rs) = count r + total count rs

foldl-totals :
    (results : List CaptureJobResult) (so_far : InsertSummary)
    → let merged = foldl add_summary so_far (map result_to_summary results) in
      (merged.records_inserted ≡ so_far.records_inserted + total (λ r. r.records_inserted) results)
      × (merged.records_updated ≡ so_far.records_updated + total (λ r. r.records_updated) results)
      × (merged.records_skipped ≡ so_far.records_skipped + total (λ r. r.records_skipped) results)
unfolding result_to_summary
foldl-totals [] so_far = omega arith
foldl-totals (r ∷ rs) so_far =
    omega (arith, foldl-totals rs (add_summary so_far (result_to_summary r)))

any-false :
    {A : Type 0} (test : A → Bool) (xs : List A)
    → (any test xs ≡ false) ↔ All (λ x. test x ≡ false) xs
any-false test [] = ground arith
any-false test (x ∷ xs) = ground (arith, any-false test xs)

-- Every job succeeded.
abbrev pub AllSucceeded : List CaptureJobResult → Type 0
AllSucceeded results = All (λ r. is_failed_or_partial r.status ≡ false) results

-- No job inserted or updated anything.
abbrev pub NothingWritten : List CaptureJobResult → Type 0
NothingWritten results = All (λ r. has_written r.records_inserted r.records_updated ≡ false) results

status_of_results_iff :
    (results : List CaptureJobResult)
    → ((status_of_results results ≡ CaptureRunStatus.success) ↔ AllSucceeded results)
      × ((status_of_results results ≡ CaptureRunStatus.failed)
          ↔ ((¬ AllSucceeded results) × NothingWritten results))
unfolding status_of_results
status_of_results_iff results = ground (
  arith,
  any-false (λ r. is_failed_or_partial r.status) results,
  any-false (λ r. has_written r.records_inserted r.records_updated) results,
)

-- What the result of the run that sums up says of the results of the jobs.
pub record SumsUp (results : List CaptureJobResult) (aggregate : CaptureJobResult) : Type 0 where
  pub inserted : aggregate.records_inserted ≡ total (λ r. r.records_inserted) results
  pub updated : aggregate.records_updated ≡ total (λ r. r.records_updated) results
  pub skipped : aggregate.records_skipped ≡ total (λ r. r.records_skipped) results
  pub succeeded : (aggregate.status ≡ CaptureRunStatus.success) ↔ AllSucceeded results
  pub failed :
      (aggregate.status ≡ CaptureRunStatus.failed)
      ↔ ((¬ AllSucceeded results) × NothingWritten results)

summary_run-SumsUp :
    (alarming : String → Bool) (now started_at : ℕ) (job_name : CaptureJobName)
    (source_type all_failed : String) (results : List CaptureJobResult)
    → SumsUp results
        (run_result alarming now (summary_run job_name started_at source_type all_failed results))
unfolding run_result summary_run merge_summaries
summary_run-SumsUp alarming now started_at job_name source_type all_failed results =
    let (i, u, k) = foldl-totals results empty_summary in
    let (good, bad) = status_of_results_iff results in
    record {
      inserted = omega (arith, i);
      updated = omega (arith, u);
      skipped = omega (arith, k);
      succeeded = good;
      failed = bad;
    }

module _ {F : Type 0} where
  record_capture_job_run-result :
      (alarming : String → Bool) (json : List String → String) (now : ℕ) (input : CaptureRunInput)
      (store : JsonlStore F) (aggregate : CaptureJobResult)
      → (record_capture_job_run alarming json now input store).1 ≡ some aggregate
      → run_result alarming now input ≡ aggregate
  unfolding record_capture_job_run
  record_capture_job_run-result alarming json now input store aggregate e = ground arith

  conclude-SumsUp :
      (context : CaptureContext) (job_name : CaptureJobName) (all_failed : String)
      (results out : List CaptureJobResult) (store : JsonlStore F)
      → (conclude context job_name all_failed results store).1 ≡ some out
      → (aggregate : CaptureJobResult) × (out ≡ results ++ aggregate ∷ [])
        × SumsUp results aggregate
  unfolding conclude
  conclude-SumsUp context job_name all_failed results out store e =
      let source_type : String = if context.use_mock then "mock" else "live" in
      let input = summary_run job_name context.started_at source_type all_failed results in
      let recorded =
        record_capture_job_run context.alarming context.json context.finished_at input store in
      elim (Option-cases recorded.1) [
        | inl none_recorded ↦ absurd (ground arith)
        | inr (aggregate, is_recorded) ↦ (
          aggregate,
          ground arith,
          subst (SumsUp results)
              (record_capture_job_run-result context.alarming context.json context.finished_at input
                store aggregate is_recorded)
              (summary_run-SumsUp context.alarming context.finished_at context.started_at job_name
                source_type all_failed results),
        )
      ]

  -- These are the results of the jobs, in their order, each run on the store that the one before it
  -- left behind.
  abbrev pub Ran : List (Job F) → JsonlStore F → List CaptureJobResult → Type 0
  Ran [] store results = results ≡ []
  Ran (job ∷ jobs) store results =
      (result : CaptureJobResult) × (others : List CaptureJobResult) × (results ≡ result ∷ others)
      × ((job store).1 ≡ some result)
      × Ran jobs (job store).0 others

  run_jobs-Ran :
      (jobs : List (Job F)) (store : JsonlStore F) (results : List CaptureJobResult)
      → (run_jobs jobs store).1 ≡ some results
      → Ran jobs store results
  unfolding run_jobs
  run_jobs-Ran [] store results e = ground arith
  run_jobs-Ran (job ∷ jobs) store results e =
      let (next, first) = job store in
      elim (Option-cases first) [
        | inl threw ↦ absurd (ground arith)
        | inr (result, is_first) ↦ elim (Option-cases (run_jobs jobs next).1) [
          | inl threw ↦ absurd (ground arith)
          | inr (others, is_rest) ↦
              (result, others, ground arith, is_first, run_jobs-Ran jobs next others is_rest)
        ]
      ]

  run_and_conclude-SumsUp :
      (context : CaptureContext) (job_name : CaptureJobName) (all_failed : String)
      (jobs : List (Job F)) (out : List CaptureJobResult) (store : JsonlStore F)
      → (run_and_conclude context job_name all_failed jobs store).1 ≡ some out
      → (results : List CaptureJobResult) × (aggregate : CaptureJobResult) × (out
          ≡ results ++ aggregate ∷ [])
        × Ran jobs store results
        × SumsUp results aggregate
  unfolding run_and_conclude
  run_and_conclude-SumsUp context job_name all_failed jobs out store e =
      let ran = run_jobs jobs store in
      elim (Option-cases ran.1) [
        | inl threw ↦ absurd (ground arith)
        | inr (results, is_ran) ↦
            let (aggregate, is_out, sums) =
              conclude-SumsUp context job_name all_failed results out ran.0 (ground arith) in
            (results, aggregate, is_out, run_jobs-Ran jobs store results is_ran, sums)
      ]

  -- A capture run that returns has the results of its five jobs, in this order: the candles, the
  -- markets, the signals, the replay and the strategy lab, each run on the store that the one before
  -- left; and then one that sums them up: it counts all that they inserted, updated and skipped; it
  -- succeeded exactly when each of them did, and failed exactly when one of them did not succeed and
  -- none inserted or updated anything.
  pub capture_once-SumsUp :
      (context : CaptureContext) (jobs : Jobs F) (store : JsonlStore F)
      (out : List CaptureJobResult)
      → (run_capture_once context jobs store).1 ≡ some out
      → (results : List CaptureJobResult) × (aggregate : CaptureJobResult) × (out
          ≡ results ++ aggregate ∷ [])
        × Ran
            (jobs.binance_candles ∷ jobs.polymarket_markets ∷ jobs.fair_value_signals
              ∷ jobs.replay_metrics ∷ jobs.strategy_lab ∷ [])
            store
            results
        × SumsUp results aggregate
  unfolding run_capture_once
  capture_once-SumsUp context jobs store out e =
      run_and_conclude-SumsUp context CaptureJobName.capture_once "Every capture job failed."
        (all_jobs jobs) out store e

  -- A snapshot run that returns has the results of its three jobs, the candles, the markets and the
  -- signals, and then one that sums them up, as a capture run does.
  pub snapshot_once-SumsUp :
      (context : CaptureContext) (jobs : Jobs F) (store : JsonlStore F)
      (out : List CaptureJobResult)
      → (run_snapshot_capture_once context jobs store).1 ≡ some out
      → (results : List CaptureJobResult) × (aggregate : CaptureJobResult) × (out
          ≡ results ++ aggregate ∷ [])
        × Ran
            (jobs.binance_candles ∷ jobs.polymarket_markets ∷ jobs.fair_value_signals ∷ [])
            store
            results
        × SumsUp results aggregate
  unfolding run_snapshot_capture_once
  snapshot_once-SumsUp context jobs store out e =
      run_and_conclude-SumsUp context CaptureJobName.snapshot_once
        "Every snapshot capture job failed." (snapshot_jobs jobs) out store e
