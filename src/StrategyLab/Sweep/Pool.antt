-- ===== src/StrategyLab/Sweep/Pool.antt =====
-- `mapWithConcurrency` of packages/research-signals/src/strategy-lab/sweep-runner.ts: workers that
-- share a cursor and an array of results. Between two awaits a worker runs alone, so an interleaving
-- is the sequence of the workers whose awaited call of the mapper comes back.
pub mod Refines
pub mod Ends
use mathlib.Core.List.{foldl}
use Prim.Native.Nat.{min}
use event_probability_termin.Base.{
  ℕ, zero, suc, Option, none, some, Bool, true, false, ◌&&◌, List, ◌==◌, if◌then◌else◌, length,
  get_elem?,
}

-- A worker awaits the mapper's value at an index, or has returned.
pub data Worker (T : Type 0) : Type 0 where
  awaiting : ℕ → T → Worker T
  returned : Worker T

-- An index of `results` that was never assigned has no value.
pub record Pool (T U : Type 0) : Type 0 where
  pub cursor : ℕ
  pub results : ℕ → Option U
  pub workers : ℕ → Worker T

-- `items[index] = item`
abbrev pub put {ℓ} : {A : Type ℓ} → (ℕ → A) → ℕ → A → ℕ → A
put items index item i = if i == index then item else items i

module _ {T U : Type 0} (mapper : T → U) (values : List T) where
  -- The loop of a worker, up to its next await.
  unfoldable pub claim : ℕ → Pool T U → Pool T U
  claim worker pool = record {
    cursor = suc pool.cursor;
    results = pool.results;
    workers = put pool.workers worker (elim (get_elem? values pool.cursor) [
      | none ↦ Worker.returned
      | some value ↦ Worker.awaiting pool.cursor value
    ]);
  }

  -- The call that a worker awaits comes back; a worker that has returned awaits none.
  unfoldable pub resume : ℕ → Pool T U → Pool T U
  unfolding claim
  resume worker pool = elim (pool.workers worker) [
    | Worker.returned ↦ pool
    | Worker.awaiting index value ↦
        claim worker (record pool { results = put pool.results index (some (mapper value)) })
  ]

  abbrev pub fresh : Pool T U
  fresh = record { cursor = 0; results = λ i. none; workers = λ k. Worker.returned }

  -- `Array.from({ length: count }, () => worker())`
  unfoldable pub start_workers : (count : ℕ) → Pool T U
  unfolding claim
  start_workers zero = fresh
  start_workers (suc k) = claim k (start_workers k)

  unfoldable pub worker_count : (concurrency : ℕ) → ℕ
  worker_count concurrency = min concurrency (length values)

  -- The pool after the calls of these workers have come back, in this order.
  unfoldable pub run_pool : (concurrency : ℕ) (schedule : List ℕ) → Pool T U
  unfolding resume start_workers worker_count
  run_pool concurrency schedule =
      foldl (λ pool worker. resume worker pool) (start_workers (worker_count concurrency)) schedule

-- `Promise.all` of the workers is fulfilled.
abbrev pub all_returned : {T U : Type 0} → ℕ → Pool T U → Bool
all_returned zero pool = true
all_returned (suc k) pool =
    (elim (pool.workers k) [ Worker.returned ↦ true | _ ↦ false ]) && all_returned k pool
