-- ===== src/Capture/Schedule.antt =====
-- `createCaptureScheduler` of packages/research-signals/src/capture/scheduler.ts: a tick of the timer
-- calls `runDueJobs`, which awaits the jobs that are due in turn, while other ticks may come. The map
-- of last runs, which the calls share, is a function, 0 where a job has not run.
use mathlib.Core.Path.{subst}
use event_probability_termin.Base.{
  ℕ, ◌+◌, ◌*◌, ◌≤◌, ◌≡◌, refl, Bool-cases, leb→le, inl, inr, Bool, true, false, List, [], ◌∷◌, ◌++◌,
  if◌then◌else◌, leb, filter, map, arith, zero, suc, none, some, get_elem?, ◌⊎◌, Option-cases,
}

pub data ScheduledJob : Type 0 where
  binance_candles polymarket_markets fair_value_signals replay_metrics strategy_lab : ScheduledJob

abbrev pub same_job : ScheduledJob → ScheduledJob → Bool
same_job ScheduledJob.binance_candles ScheduledJob.binance_candles = true
same_job ScheduledJob.polymarket_markets ScheduledJob.polymarket_markets = true
same_job ScheduledJob.fair_value_signals ScheduledJob.fair_value_signals = true
same_job ScheduledJob.replay_metrics ScheduledJob.replay_metrics = true
same_job ScheduledJob.strategy_lab ScheduledJob.strategy_lab = true
same_job _ _ = false

-- The keys of the configuration, in its order.
abbrev pub scheduled_jobs : List ScheduledJob
scheduled_jobs =
    ScheduledJob.binance_candles ∷ ScheduledJob.polymarket_markets ∷ ScheduledJob.fair_value_signals
    ∷ ScheduledJob.replay_metrics ∷ ScheduledJob.strategy_lab ∷ []

unfoldable pub default_capture_schedule_ms : ScheduledJob → ℕ
default_capture_schedule_ms ScheduledJob.binance_candles = 60_000
default_capture_schedule_ms ScheduledJob.polymarket_markets = 5 * 60_000
default_capture_schedule_ms ScheduledJob.fair_value_signals = 60_000
default_capture_schedule_ms ScheduledJob.replay_metrics = 15 * 60_000
default_capture_schedule_ms ScheduledJob.strategy_lab = 60 * 60_000

abbrev pub LastRun : Type 0
LastRun = ScheduledJob → ℕ

-- The times lie at least `gap` after one another, and after `previous`.
abbrev pub IsSpaced : (gap previous : ℕ) → List ℕ → Type 0
IsSpaced gap previous [] = Unit
IsSpaced gap previous (time ∷ times) = (previous + gap ≤ time) × IsSpaced gap time times

abbrev pub times_of : ScheduledJob → List (ℕ × ScheduledJob) → List ℕ
times_of job runs = map (λ r. r.0) (filter (λ r. same_job job r.1) runs)

times_of-append :
    (job : ScheduledJob) (runs more : List (ℕ × ScheduledJob))
    → times_of job (runs ++ more) ≡ times_of job runs ++ times_of job more
times_of-append job [] more = refl
times_of-append job (run ∷ runs) more = ground (arith, times_of-append job runs more)

same_job_refl : (job : ScheduledJob) → same_job job job ≡ true
same_job_refl ScheduledJob.binance_candles = refl
same_job_refl ScheduledJob.polymarket_markets = refl
same_job_refl ScheduledJob.fair_value_signals = refl
same_job_refl ScheduledJob.replay_metrics = refl
same_job_refl ScheduledJob.strategy_lab = refl

-- Two jobs are the same, or neither test finds them so.
job_cases : (a b : ScheduledJob) → (a ≡ b) ⊎ ((same_job a b ≡ false) × (same_job b a ≡ false))
job_cases a b = ground arith

-- A call of `runDueJobs` that awaits a job: when its tick was, and the jobs that it has yet to look at.
pub record Tick : Type 0 where
  pub current : ℕ
  pub left : List ScheduledJob

-- What all calls share, and the calls, in the order of their ticks.
pub record Scheduler : Type 0 where
  pub last_run : LastRun
  pub ticks : List Tick

-- What can happen: the timer ticks, whether or not earlier calls have returned, or the job that a
-- call awaits ends or throws, which ends the call; where it ends the process, no event follows.
pub data Event : Type 0 where
  tick_at : ℕ → Event
  job_ends : ℕ → Event
  job_throws : ℕ → Event

abbrev pub set_at : {A : Type 0} → ℕ → A → List A → List A
set_at n a [] = []
set_at zero a (x ∷ xs) = a ∷ xs
set_at (suc n) a (x ∷ xs) = x ∷ set_at n a xs

module _ (schedule : ScheduledJob → ℕ) where
  -- `current - previous >= schedule[jobName]`
  abbrev pub is_due : ℕ → LastRun → ScheduledJob → Bool
  is_due current last job = leb (last job + schedule job) current

  abbrev set_last : ℕ → LastRun → ScheduledJob → LastRun
  set_last current last job other = if same_job job other then current else last other

  -- The loop over the jobs from one await to the next, for a tick at `current`: what has run last, the
  -- jobs that are still to be looked at, and the job that it has started and awaits, if any.
  unfoldable pub advance :
      ℕ → List ScheduledJob → LastRun → LastRun × List ScheduledJob × List ScheduledJob
  advance current [] last = (last, [], [])
  advance current (job ∷ jobs) last =
      let skipped = advance current jobs last in
      if is_due current last job then (set_last current last job, jobs, job ∷ []) else skipped

  -- One step; a tick that is not there does nothing.
  unfoldable pub step : Event → Scheduler → Scheduler × List (ℕ × ScheduledJob)
  unfolding advance
  step (Event.tick_at current) s =
      let (last, left, started) = advance current scheduled_jobs s.last_run in
      (
        record {
          last_run = last;
          ticks = s.ticks ++ (record { current = current; left = left }) ∷ [];
        },
        map (λ job. (current, job)) started,
      )
  step (Event.job_ends i) s = elim (get_elem? s.ticks i) [
    | none ↦ (s, [])
    | some tick ↦
        let (last, left, started) = advance tick.current tick.left s.last_run in
        (
          record {
            last_run = last;
            ticks = set_at i (record { current = tick.current; left = left }) s.ticks;
          },
          map (λ job. (tick.current, job)) started,
        )
  ]
  step (Event.job_throws i) s = elim (get_elem? s.ticks i) [
    | none ↦ (s, [])
    | some tick ↦ (
      record {
        last_run = s.last_run;
        ticks = set_at i (record { current = tick.current; left = [] }) s.ticks;
      },
      [],
    )
  ]

  -- The jobs that are started, each with the time of the tick that starts it.
  unfoldable pub run_events : List Event → Scheduler → List (ℕ × ScheduledJob)
  run_events [] s = []
  run_events (event ∷ later) s =
      let (next, started) = step event s in started ++ run_events later next

  -- What a stretch of the loop does for a job: it starts it, being due, at the tick's time, which is
  -- then on record, or it does not and leaves the record alone.
  abbrev Books :
      (last : LastRun) (next : LastRun) (started : List (ℕ × ScheduledJob)) → ScheduledJob → Type 0
  Books last next started job =
      ((times_of job started ≡ []) × (next job ≡ last job))
      ⊎ ((current : ℕ) × (times_of job started ≡ current ∷ [])
          × (next job ≡ current)
          × (last job + schedule job ≤ current))

  advance-Books :
      (current : ℕ) (jobs : List ScheduledJob) (last : LastRun) (job : ScheduledJob)
      → let (next, left, started) = advance current jobs last in
        Books last next (map (λ j. (current, j)) started) job
  unfolding advance
  advance-Books current [] last job = inl (refl, refl)
  advance-Books current (first ∷ jobs) last job = elim (Bool-cases (is_due current last first)) [
    | inl due ↦ elim (job_cases first job) [
      | inl same ↦
          let ready = leb→le _ _ due in
          rw (due, same, same_job_refl job) (inr (current, refl, refl, rw same at ready))
      | inr (other, turned) ↦ rw (due, other, turned) (inl (refl, refl))
    ]
    | inr early ↦ rw early (advance-Books current jobs last job)
  ]

  step-Books :
      (event : Event) (s : Scheduler) (job : ScheduledJob)
      → Books s.last_run (step event s).0.last_run (step event s).1 job
  unfolding step
  step-Books (Event.tick_at current) s job = advance-Books current scheduled_jobs s.last_run job
  step-Books (Event.job_ends i) s job = elim (Option-cases (get_elem? s.ticks i)) [
    | inl e ↦ rw (e, step) (inl (refl, refl))
    | inr (tick, e) ↦ rw (e, step) (advance-Books tick.current tick.left s.last_run job)
  ]
  step-Books (Event.job_throws i) s job = elim (Option-cases (get_elem? s.ticks i)) [
    | inl e ↦ rw (e, step) (inl (refl, refl))
    | inr (tick, e) ↦ rw (e, step) (inl (refl, refl))
  ]

  events-IsSpaced :
      (events : List Event) (s : Scheduler) (job : ScheduledJob)
      → IsSpaced (schedule job) (s.last_run job) (times_of job (run_events events s))
  unfolding run_events
  events-IsSpaced [] s job = tt
  events-IsSpaced (event ∷ later) s job =
      let next = (step event s).0 in
      let started = (step event s).1 in
      let rest = events-IsSpaced later next job in
      let later_times = times_of job (run_events later next) in
      rw (times_of-append job started (run_events later next)) (elim (step-Books event s job) [
        | inl (none_started, kept) ↦
            rw none_started (subst (λ p. IsSpaced (schedule job) p later_times) kept rest)
        | inr (current, is_started, booked, due) ↦
            rw is_started (due, subst (λ p. IsSpaced (schedule job) p later_times) booked rest)
      ])

  -- A tick at which no earlier call awaits anything, and whose jobs end one after the other before
  -- the next tick, starts exactly the jobs that are due, in the order of the configuration.
  lone_tick :
      (current : ℕ) (last : LastRun)
      → let end = Event.job_ends 0 in
        run_events
          (Event.tick_at current ∷ end ∷ end ∷ end ∷ end ∷ end ∷ [])
          (record { last_run = last; ticks = [] })
        ≡ map
            (λ job. (current, job))
            (filter (λ job. leb (last job + schedule job) current) scheduled_jobs)
  unfolding run_events step advance
  lone_tick current last = ground arith

  -- However ticks of the timer, and ends and failures of the awaited jobs, follow upon each other,
  -- ticks that overlap included: the times of the ticks that start a job lie at least its interval
  -- after one another, and the first at least its interval after the run that is on record. The job
  -- itself may start later than its tick, once the jobs before it have ended. And a tick at which no
  -- earlier call awaits anything, and whose jobs end one after the other before the next tick, starts
  -- exactly the jobs that are due, in the order of the configuration.
  pub runs-IsSpaced :
      (events : List Event) (s : Scheduler) (job : ScheduledJob) (current : ℕ)
      → let end = Event.job_ends 0 in
        IsSpaced (schedule job) (s.last_run job) (times_of job (run_events events s))
        × (run_events
              (Event.tick_at current ∷ end ∷ end ∷ end ∷ end ∷ end ∷ [])
              (record { last_run = s.last_run; ticks = [] })
            ≡ map
                (λ j. (current, j))
                (filter (λ j. leb (s.last_run j + schedule j) current) scheduled_jobs))
  runs-IsSpaced events s job current = (events-IsSpaced events s job, lone_tick current s.last_run)
