-- ===== src/Capture/Tests.antt =====
-- The theorems on capture at concrete runs: jobs that each insert three rows and skip one.
use event_probability_termin.Base.{
  ℕ, ◌≡◌, refl, true, false, none, some, String, List, [], ◌∷◌, ◌++◌,
}
use event_probability_termin.Store.Table.{load_table, Table, insert_record, append_row}
use event_probability_termin.Store.Records.{assert_store_source}
use event_probability_termin.Store.Jsonl.{JsonlStore, init, load_all, record_capture_run}
use event_probability_termin.Capture.{
  CaptureJobName, CaptureRunStatus, CaptureJobResult, record_capture_job_run, run_result,
}
use event_probability_termin.Capture.Runs.{
  Job, Jobs, CaptureContext, run_jobs, conclude, run_and_conclude, run_capture_once, summary_run,
}
use event_probability_termin.Capture.Runs.Totals.{Ran, SumsUp, capture_once-SumsUp}
use event_probability_termin.Capture.Schedule.{
  ScheduledJob, LastRun, default_capture_schedule_ms, Event, Scheduler, advance, step, run_events,
  IsSpaced, times_of, runs-IsSpaced,
}

abbrev no_rows : {R : Type 0} → Table R
no_rows = record { rows = []; lines = []; json = λ r. r; is_written = λ now id. true }

abbrev store : JsonlStore ℕ
store = record {
  initialized = true;
  market_snapshots = no_rows;
  underlying_candles = no_rows;
  fair_value_signals = no_rows;
  replay_results = no_rows;
  short_window_signals = no_rows;
  short_window_replay_results = no_rows;
  strategy_lab_results = no_rows;
  capture_runs = no_rows;
}

abbrev job_result : CaptureJobName → CaptureJobResult
job_result name = record {
  job_name = name;
  status = CaptureRunStatus.success;
  source_type = "live";
  records_inserted = 3;
  records_updated = 0;
  records_skipped = 1;
  warnings = [];
  error_message = none;
  started_at = 100;
  finished_at = 200;
  duration_ms = 100;
}

abbrev job : CaptureJobName → Job ℕ
job name s = (s, some (job_result name))

abbrev jobs : Jobs ℕ
jobs = record {
  binance_candles = job CaptureJobName.binance_candles;
  polymarket_markets = job CaptureJobName.polymarket_markets;
  fair_value_signals = job CaptureJobName.fair_value_signals;
  replay_metrics = job CaptureJobName.replay_metrics;
  strategy_lab = job CaptureJobName.strategy_lab;
}

abbrev context : CaptureContext
context = record {
  alarming = λ text. false;
  json = λ texts. "[]";
  use_mock = false;
  started_at = 100;
  finished_at = 900;
}

abbrev results : List CaptureJobResult
results =
    job_result CaptureJobName.binance_candles
    ∷ job_result CaptureJobName.polymarket_markets
    ∷ job_result CaptureJobName.fair_value_signals
    ∷ []

abbrev all_results : List CaptureJobResult
all_results =
    results
    ++ (job_result CaptureJobName.replay_metrics ∷ job_result CaptureJobName.strategy_lab ∷ [])

abbrev concluded : CaptureJobName → String → List CaptureJobResult → List CaptureJobResult
concluded name all_failed rs =
    rs ++ run_result context.alarming 900 (summary_run name 100 "live" all_failed rs) ∷ []

capture_once-SumsUp_example :
    (rs : List CaptureJobResult) × (aggregate : CaptureJobResult) × (concluded
        CaptureJobName.capture_once "Every capture job failed." all_results
      ≡ rs ++ aggregate ∷ [])
    × Ran
        (jobs.binance_candles ∷ jobs.polymarket_markets ∷ jobs.fair_value_signals
          ∷ jobs.replay_metrics ∷ jobs.strategy_lab ∷ [])
        store
        rs
    × SumsUp rs aggregate
unfolding run_capture_once run_and_conclude run_jobs conclude record_capture_job_run
    record_capture_run insert_record append_row init load_all load_table assert_store_source
    summary_run
capture_once-SumsUp_example =
    capture_once-SumsUp context jobs store
      (concluded CaptureJobName.capture_once "Every capture job failed." all_results) refl

abbrev never : LastRun
never any_job = 0

-- The second tick comes while the first one awaits its job; that job ends, and the next one throws.
abbrev events : List Event
events =
    Event.tick_at 300_000
    ∷ Event.tick_at 301_000
    ∷ Event.job_ends 0
    ∷ Event.job_throws 0
    ∷ Event.tick_at 420_000
    ∷ Event.job_ends 1
    ∷ []

abbrev idle : Scheduler
idle = record { last_run = never; ticks = [] }

runs-IsSpaced_example :
    IsSpaced 60_000 0
      (times_of ScheduledJob.binance_candles (run_events default_capture_schedule_ms events idle))
    × (run_events default_capture_schedule_ms
          (Event.tick_at 60_000
            ∷ Event.job_ends 0
            ∷ Event.job_ends 0
            ∷ Event.job_ends 0
            ∷ Event.job_ends 0
            ∷ Event.job_ends 0
            ∷ [])
          idle
        ≡ (60_000, ScheduledJob.binance_candles) ∷ (60_000, ScheduledJob.fair_value_signals) ∷ [])
unfolding default_capture_schedule_ms
runs-IsSpaced_example =
    runs-IsSpaced default_capture_schedule_ms events idle ScheduledJob.binance_candles 60_000

-- The candles are captured at the first and the last tick; the markets at the second, which looks at
-- them before the first one comes to them.
events_started :
    run_events default_capture_schedule_ms events idle
    ≡ (300_000, ScheduledJob.binance_candles)
      ∷ (301_000, ScheduledJob.polymarket_markets)
      ∷ (300_000, ScheduledJob.fair_value_signals)
      ∷ (420_000, ScheduledJob.binance_candles)
      ∷ []
unfolding default_capture_schedule_ms run_events step advance
events_started = refl
