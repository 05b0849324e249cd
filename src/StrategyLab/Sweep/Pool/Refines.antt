-- ===== src/StrategyLab/Sweep/Pool/Refines.antt =====
-- Whatever the order in which the calls come back, the pool computes `map`.
use mathlib.Core.Option
use mathlib.Core.List.{foldl}
use event_probability_termin.Base.{
  ℕ, zero, suc, ◌≤◌, ◌<◌, ◌≡◌, refl, sym, ap, ◌∙◌, ◌⊎◌, inl, inr, none, some, true, false, List, [],
  ◌∷◌, map, ◌==◌, ltb, length, get_elem?, get_elem?-none, get_elem?-map, arith, Bool-cases,
  Option-cases,
}
use event_probability_termin.StrategyLab.Sweep.Pool.{
  Worker, Pool, put, claim, resume, fresh, start_workers, worker_count, run_pool, all_returned,
}

pub worker_cases :
    {T : Type 0} (w : Worker T)
    → (w ≡ Worker.returned) ⊎ ((i : ℕ) × (v : T) × (w ≡ Worker.awaiting i v))
worker_cases Worker.returned = inl refl
worker_cases (Worker.awaiting i v) = inr (i, v, refl)

module _ {T U : Type 0} (mapper : T → U) (values : List T) where
  -- What is so of an index: its result is that of `map`, some worker awaits it, or no worker has
  -- come to it.
  abbrev pub IsCovered : Pool T U → ℕ → Type 0
  IsCovered pool i =
      (pool.results i ≡ Option.map mapper (get_elem? values i))
      ⊎ (((k : ℕ) × (v : T) × (pool.workers k ≡ Worker.awaiting i v))
          ⊎ ((pool.cursor ≤ i) × (pool.results i ≡ none)))

  -- The invariant, of a pool of which `count` workers have started.
  pub record IsPool (count : ℕ) (pool : Pool T U) : Type 0 where
    pub covered : (i : ℕ) → IsCovered pool i
    -- a worker awaits the value at its index
    pub sound :
        (k i : ℕ) (v : T) → pool.workers k ≡ Worker.awaiting i v → get_elem? values i ≡ some v
    -- one that has returned found no value
    pub exhausted :
        (k : ℕ) → k < count → pool.workers k ≡ Worker.returned → length values ≤ pool.cursor
    pub outside : (k : ℕ) → count ≤ k → pool.workers k ≡ Worker.returned

  fresh-IsPool : IsPool 0 (fresh mapper values)
  fresh-IsPool = record {
    covered = λ i. inr (inr (omega arith, refl));
    sound = λ k i v h. absurd (ground arith);
    exhausted = λ k h. absurd (omega arith);
    outside = λ k h. refl;
  }

  -- The same, of the workers but one.
  abbrev IsCoveredBut : ℕ → Pool T U → ℕ → Type 0
  IsCoveredBut worker pool i =
      (pool.results i ≡ Option.map mapper (get_elem? values i))
      ⊎ (((k : ℕ) × (v : T) × ((k == worker) ≡ false) × (pool.workers k ≡ Worker.awaiting i v))
          ⊎ ((pool.cursor ≤ i) × (pool.results i ≡ none)))

  claim-IsCovered :
      (k : ℕ) (pool : Pool T U) (i : ℕ)
      → IsCoveredBut k pool i
      → IsCovered (claim mapper values k pool) i
  unfolding claim
  claim-IsCovered k pool i (inl h) = inl h
  claim-IsCovered k pool i (inr (inl (other, v, differs, h))) = inr (inl (other, v, rw differs h))
  claim-IsCovered k pool i (inr (inr (later, h))) =
      let bound = get_elem?-none values i in
      let here = get_elem?-none values pool.cursor in
      elim (Option-cases (get_elem? values pool.cursor)) [
        | inl nothing ↦
            let past : get_elem? values i ≡ none = ground (arith, bound, here, nothing) in
            inl (h ∙ ap (Option.map mapper) (sym past))
        | inr (v, is_v) ↦ elim (Bool-cases (i == pool.cursor)) [
          | inl same ↦ inr (inl (k, v, ground (arith, is_v)))
          | inr differs ↦ inr (inr (ground arith, h))
        ]
      ]

  -- A claim keeps the invariant, of one of the workers that have started or of the next one.
  claim-IsPool :
      (m m' k : ℕ) (pool : Pool T U)
      → ((m' ≡ m) × (k < m)) ⊎ ((m' ≡ suc m) × (k ≡ m))
      → ((i : ℕ) → IsCoveredBut k pool i)
      → IsPool m pool
      → IsPool m' (claim mapper values k pool)
  unfolding claim
  claim-IsPool m m' k pool turn but h =
      let bound = get_elem?-none values pool.cursor in
      record {
        covered = λ i. claim-IsCovered k pool i (but i);
        sound = λ j i v e. elim (Bool-cases (j == k)) [
          | inl same ↦ elim (Option-cases (get_elem? values pool.cursor)) [
            | inl nothing ↦ absurd (ground arith)
            | inr (w, is_w) ↦ ground arith
          ]
          | inr differs ↦ h.sound j i v (ground arith)
        ];
        exhausted = λ j low e. elim (Bool-cases (j == k)) [
          | inl same ↦ elim (Option-cases (get_elem? values pool.cursor)) [
            | inl nothing ↦ ground (arith, bound)
            | inr (w, is_w) ↦ absurd (ground arith)
          ]
          | inr differs ↦
              let old : length values ≤ pool.cursor = h.exhausted j (ground arith) (ground arith) in
              omega arith
        ];
        outside = λ j high.
            let differs : (j == k) ≡ false = ground arith in
            rw differs (h.outside j (ground arith));
      }

  pub start-IsPool : (m : ℕ) → IsPool m (start_workers mapper values m)
  unfolding start_workers
  start-IsPool zero = fresh-IsPool
  start-IsPool (suc k) =
      let before = start-IsPool k in
      let idle = before.outside k (omega arith) in
      claim-IsPool k (suc k) k (start_workers mapper values k) (inr (refl, refl))
        (λ i. elim (before.covered i) [
          | inl r ↦ inl r
          | inr (inl (j, v, e)) ↦ inr (inl (j, v, (ground arith), e))
          | inr (inr later) ↦ inr (inr later)
        ])
        before

  -- The pool once a value has been delivered, before the worker claims again.
  deliver-IsPool :
      (m k index : ℕ) (value : T) (pool : Pool T U)
      → pool.workers k ≡ Worker.awaiting index value
      → IsPool m pool
      → let after : Pool T U = record pool {
        results = put pool.results index (some (mapper value));
      } in
        IsPool m after × ((i : ℕ) → IsCoveredBut k after i)
  deliver-IsPool m k index value pool e h =
      let here = h.sound k index value e in
      let but : (i : ℕ)
          → IsCoveredBut k (record pool { results = put pool.results index (some (mapper value)) })
              i =
        λ i. elim (Bool-cases (i == index)) [
          | inl same ↦ inl (ground (arith, here))
          | inr differs ↦ elim (h.covered i) [
            | inl r ↦ inl (rw differs r)
            | inr (inl (j, v, f)) ↦ inr (inl (j, v, (ground (arith, e, f)), f))
            | inr (inr (later, none_yet)) ↦ inr (inr (later, rw differs none_yet))
          ]
        ] in
      (
        record {
          covered = λ i. elim (but i) [
            | inl r ↦ inl r
            | inr (inl (j, v, d, f)) ↦ inr (inl (j, v, f))
            | inr (inr later) ↦ inr (inr later)
          ];
          sound = h.sound;
          exhausted = h.exhausted;
          outside = h.outside;
        },
        but,
      )

  pub resume-IsPool :
      (m k : ℕ) (pool : Pool T U) → IsPool m pool → IsPool m (resume mapper values k pool)
  unfolding resume
  resume-IsPool m k pool h = elim (worker_cases (pool.workers k)) [
    | inl e ↦ rw (e, resume) h
    | inr (index, value, e) ↦
        let (kept, but) = deliver-IsPool m k index value pool e h in
        let low : k < m = elim (Bool-cases (ltb k m)) [
          | inl below ↦ ground arith
          | inr above ↦ absurd (ground (arith, e, h.outside k (ground arith)))
        ] in
        rw (e, resume) (claim-IsPool m m k _ (inl (refl, low)) but kept)
  ]

  pub run-IsPool :
      (m : ℕ) (schedule : List ℕ) (pool : Pool T U)
      → IsPool m pool
      → IsPool m (foldl (λ p k. resume mapper values k p) pool schedule)
  run-IsPool m [] pool h = h
  run-IsPool m (k ∷ ks) pool h =
      run-IsPool m ks (resume mapper values k pool) (resume-IsPool m k pool h)

  pub returned_lem :
      (m : ℕ) (pool : Pool T U)
      → all_returned m pool ≡ true
      → (k : ℕ) → k < m
      → pool.workers k ≡ Worker.returned
  returned_lem zero pool h k low = absurd (omega arith)
  returned_lem (suc m) pool h k low = elim (Bool-cases (k == m)) [
    | inl same ↦ elim (worker_cases (pool.workers k)) [
      | inl e ↦ e
      | inr (index, value, e) ↦ absurd (ground arith)
    ]
    | inr differs ↦ returned_lem m pool (ground arith) k (ground arith)
  ]

  -- Where at least one worker is allowed, the calls may come back in any order: once all workers
  -- have returned, the results are those of applying the mapper to each value in turn.
  pub pool_refines_map :
      (concurrency : ℕ) (schedule : List ℕ)
      → 0 < concurrency
      → all_returned
          (worker_count mapper values concurrency)
          (run_pool mapper values concurrency schedule)
        ≡ true
      → (i : ℕ)
      → (run_pool mapper values concurrency schedule).results i ≡ get_elem? (map mapper values) i
  unfolding run_pool worker_count
  pool_refines_map concurrency schedule some_worker done i =
      let count = worker_count mapper values concurrency in
      let final = run_pool mapper values concurrency schedule in
      let h = run-IsPool count schedule _ (start-IsPool count) in
      let back = returned_lem count final done in
      let bound = get_elem?-none values i in
      elim (h.covered i) [
        | inl r ↦ r ∙ sym (get_elem?-map mapper values i)
        | inr (inl (k, v, e)) ↦ elim (Bool-cases (ltb k count)) [
          | inl low ↦ absurd (ground (arith, e, back k (ground arith)))
          | inr high ↦ absurd (ground (arith, e, h.outside k (ground arith)))
        ]
        | inr (inr (later, none_yet)) ↦
            let past : length values ≤ i = elim (Bool-cases (ltb 0 count)) [
              | inl busy ↦
                  let all_taken = h.exhausted 0 (ground arith) (back 0 (ground arith)) in
                  omega arith
              | inr idle ↦ ground arith
            ] in
            let nothing : get_elem? values i ≡ none = ground (arith, bound) in
            none_yet ∙ sym (get_elem?-map mapper values i ∙ ap (Option.map mapper) nothing)
      ]
