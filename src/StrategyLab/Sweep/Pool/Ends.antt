-- ===== src/StrategyLab/Sweep/Pool/Ends.antt =====
-- How many calls of the mapper a pool awaits before it is done.
use mathlib.Core.List.{foldl}
use event_probability_termin.Base.{
  ℕ, zero, suc, ◌+◌, ◌-◌, ◌≤◌, ◌<◌, ◌≡◌, refl, ap, ◌↔◌, inl, inr, some, true, false, List, [], ◌∷◌,
  ◌==◌, ltb, length, get_elem?, get_elem?-none, arith, Bool-cases, Option-cases,
}
use event_probability_termin.StrategyLab.Sweep.Pool.{
  Worker, Pool, put, claim, resume, start_workers, worker_count, run_pool, all_returned,
}
use event_probability_termin.StrategyLab.Sweep.Pool.Refines.{
  IsPool, start-IsPool, run-IsPool, resume-IsPool, returned_lem, worker_cases,
}

abbrev weight : {T : Type 0} → Worker T → ℕ
weight Worker.returned = 0
weight (Worker.awaiting i v) = 1

-- How many of the first workers await a call.
abbrev pub busy : {T : Type 0} → ℕ → (ℕ → Worker T) → ℕ
busy zero workers = 0
busy (suc k) workers = weight (workers k) + busy k workers

busy-put_outside :
    {T : Type 0} (m k : ℕ) (workers : ℕ → Worker T) (w : Worker T)
    → m ≤ k
    → busy m (put workers k w) ≡ busy m workers
busy-put_outside zero k workers w h = refl
busy-put_outside (suc m) k workers w h =
    let rest = busy-put_outside m k workers w (omega arith) in
    let differs : (m == k) ≡ false = ground arith in ground (arith, rest)

busy-put :
    {T : Type 0} (m k : ℕ) (workers : ℕ → Worker T) (w : Worker T)
    → k < m
    → busy m (put workers k w) + weight (workers k) ≡ busy m workers + weight w
busy-put zero k workers w h = absurd (omega arith)
busy-put (suc m) k workers w h = elim (Bool-cases (m == k)) [
  | inl same ↦
      let e : m ≡ k = ground arith in
      let rest = busy-put_outside m k workers w (omega arith) in ground (arith, rest, ap workers e)
  | inr differs ↦ let rest = busy-put m k workers w (ground arith) in ground (arith, rest)
]

busy-zero :
    {T U : Type 0} (m : ℕ) (pool : Pool T U)
    → (busy m pool.workers ≡ 0) ↔ (all_returned m pool ≡ true)
busy-zero zero pool = ground arith
busy-zero (suc m) pool = ground (arith, busy-zero m pool)

module _ {T U : Type 0} (mapper : T → U) (values : List T) where
  abbrev remaining : ℕ → Pool T U → ℕ
  remaining m pool = (length values - pool.cursor) + busy m pool.workers

  -- A sequence of workers each of which awaits a call when it is its turn.
  abbrev pub IsLive : Pool T U → List ℕ → Type 0
  IsLive pool [] = Unit
  IsLive pool (k ∷ ks) = (weight (pool.workers k) ≡ 1) × IsLive (resume mapper values k pool) ks

  claim_lem :
      (m k : ℕ) (pool : Pool T U)
      → k < m
      → remaining m (claim mapper values k pool) + weight (pool.workers k) ≡ remaining m pool
  unfolding claim
  claim_lem m k pool low =
      let bound = get_elem?-none values pool.cursor in
      elim (Option-cases (get_elem? values pool.cursor)) [
        | inl nothing ↦
            let change = busy-put m k pool.workers Worker.returned low in
            let past : length values ≤ pool.cursor = ground (arith, bound, nothing) in
            rw nothing (omega (arith, change))
        | inr (v, is_v) ↦
            let change = busy-put m k pool.workers (Worker.awaiting pool.cursor v) low in
            let inside : pool.cursor < length values = ground (arith, bound, is_v) in
            rw is_v (omega (arith, change))
      ]

  -- A call that comes back leaves one call less.
  resume_lem :
      (m k : ℕ) (pool : Pool T U)
      → IsPool mapper values m pool
      → weight (pool.workers k) ≡ 1
      → suc (remaining m (resume mapper values k pool)) ≡ remaining m pool
  unfolding resume
  resume_lem m k pool h live = elim (worker_cases (pool.workers k)) [
    | inl e ↦ absurd (ground (arith, e))
    | inr (index, value, e) ↦
        let low : k < m = elim (Bool-cases (ltb k m)) [
          | inl below ↦ ground arith
          | inr above ↦ absurd (ground (arith, e, h.outside k (ground arith)))
        ] in
        let after : Pool T U = record pool {
          results = put pool.results index (some (mapper value));
        } in
        let change = claim_lem m k after low in rw (e, resume) (omega (arith, change, live))
  ]

  run_lem :
      (m : ℕ) (schedule : List ℕ) (pool : Pool T U)
      → IsPool mapper values m pool
      → IsLive pool schedule
      → remaining m (foldl (λ p k. resume mapper values k p) pool schedule) + length schedule
        ≡ remaining m pool
  run_lem m [] pool h live = omega arith
  run_lem m (k ∷ ks) pool h (here, live) =
      let rest =
        run_lem m ks (resume mapper values k pool) (resume-IsPool mapper values m k pool h) live in
      omega (arith, rest, resume_lem m k pool h here)

  -- Each worker that is started takes one of the first values.
  start_lem :
      (m : ℕ)
      → m ≤ length values
      → ((start_workers mapper values m).cursor ≡ m)
        × (busy m (start_workers mapper values m).workers ≡ m)
  unfolding start_workers claim
  start_lem zero h = (refl, refl)
  start_lem (suc k) h =
      let (cursor_is, busy_is) = start_lem k (omega arith) in
      let before = start_workers mapper values k in
      let bound = get_elem?-none values before.cursor in
      let inside : before.cursor < length values = omega (arith, cursor_is) in
      elim (Option-cases (get_elem? values before.cursor)) [
        | inl nothing ↦ absurd (ground (arith, bound, nothing))
        | inr (v, is_v) ↦
            let rest =
              busy-put_outside k k before.workers (Worker.awaiting before.cursor v) (omega arith) in
            rw is_v (ap suc cursor_is, ground (arith, rest, busy_is))
      ]

  -- However the calls of the mapper come back, there are no more of them than values, and the workers
  -- have all returned exactly when as many calls as there are values have come back.
  pub pool_ends :
      (concurrency : ℕ) (schedule : List ℕ)
      → 0 < concurrency
      → IsLive (run_pool mapper values concurrency []) schedule
      → let count = worker_count mapper values concurrency in
        (length schedule ≤ length values)
        × ((all_returned count (run_pool mapper values concurrency schedule) ≡ true)
            ↔ (length schedule ≡ length values))
  unfolding run_pool worker_count
  pool_ends concurrency schedule some_worker live =
      let count = worker_count mapper values concurrency in
      let start = start_workers mapper values count in
      let final = run_pool mapper values concurrency schedule in
      let begun = start-IsPool mapper values count in
      let spent = run_lem count schedule start begun live in
      let ended = run-IsPool mapper values count schedule start begun in
      let first = start_lem count (omega arith) in
      let idle = busy-zero count final in
      let all_taken : all_returned count final ≡ true → length values ≤ length schedule = λ done.
        elim (Bool-cases (ltb 0 count)) [
          | inl some_started ↦
              let past =
                ended.exhausted 0 (ground arith)
                  (returned_lem mapper values count final done 0 (ground arith)) in
              ground (arith, past, spent, first, idle, done)
          | inr none_started ↦ ground arith
        ] in
      (
        omega (arith, spent, first),
        (
          (λ done. omega (arith, all_taken done, spent, first)),
          λ full. ground (arith, spent, first, idle, full),
        ),
      )
