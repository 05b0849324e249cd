-- ===== src/Store/Queries/Sorted.antt =====
-- The order of the candles that a query gives, and which replay result is the latest.
use Prim.Native.Nat.{min, max}
use event_probability_termin.Base.{
  length-take, ◌∙◌, ap, ℕ, ◌≤◌, ◌≡◌, refl, true, Option, none, some, List, [], ◌∷◌, String, ltb,
  filter, first?, sort, insert_sorted, length, All, get_or, arith, sort-All, length-sort,
  filter-All, if◌then◌else◌, Bool-cases, Option-cases, inl, inr, All-map_weaken,
}
use event_probability_termin.Store.Records.{ReplayResultRecord}
use event_probability_termin.Store.Jsonl.{JsonlStore, init}
use event_probability_termin.Store.Queries.{
  get_capture_runs, CandleQuery, answers, get_underlying_candles, is_result_of,
  get_latest_replay_result,
}

module _ {A : Type 0} (key : A → ℕ) where
  -- The first of the list is not below `low`.
  abbrev IsFrom : ℕ → List A → Type 0
  IsFrom low [] = Unit
  IsFrom low (x ∷ xs) = low ≤ key x

  abbrev pub IsAscending : List A → Type 0
  IsAscending [] = Unit
  IsAscending (x ∷ xs) = IsFrom (key x) xs × IsAscending xs

  insert_sorted-IsFrom :
      (low : ℕ) (x : A) (xs : List A)
      → low ≤ key x
      → IsFrom low xs
      → IsFrom low (insert_sorted (λ a b. ltb (key a) (key b)) x xs)
  insert_sorted-IsFrom low x [] h k = h
  insert_sorted-IsFrom low x (y ∷ ys) h k = ground arith

  insert_sorted-IsAscending :
      (x : A) (xs : List A)
      → IsAscending xs
      → IsAscending (insert_sorted (λ a b. ltb (key a) (key b)) x xs)
  insert_sorted-IsAscending x [] h = (tt, tt)
  insert_sorted-IsAscending x (y ∷ ys) (h, k) = elim (Bool-cases (ltb (key y) (key x))) [
    | inl e ↦
        let below : key y ≤ key x = ground arith in
        rw e (insert_sorted-IsFrom (key y) x ys below h, insert_sorted-IsAscending x ys k)
    | inr e ↦ let above : key x ≤ key y = ground arith in rw e (above, (h, k))
  ]

  sort-IsAscending : (xs : List A) → IsAscending (sort (λ a b. ltb (key a) (key b)) xs)
  sort-IsAscending [] = tt
  sort-IsAscending (x ∷ xs) = insert_sorted-IsAscending x _ (sort-IsAscending xs)

  -- Of two items the one with the greater key, the first where they are level.
  abbrev later_of : A → Option A → A
  later_of x none = x
  later_of x (some y) = if ltb (key x) (key y) then y else x

  first-insert_sorted :
      (x : A) (ys : List A)
      → first? (insert_sorted (λ a b. ltb (key b) (key a)) x ys) ≡ some (later_of x (first? ys))
  first-insert_sorted x [] = refl
  first-insert_sorted x (y ∷ ys) = ground arith

  first-sort-none :
      (P : A → Type 0) (xs : List A)
      → first? (sort (λ a b. ltb (key b) (key a)) xs) ≡ none
      → All P xs
  first-sort-none P [] e = tt
  first-sort-none P (x ∷ xs) e =
      absurd (ground (arith, first-insert_sorted x (sort (λ a b. ltb (key b) (key a)) xs)))

  first-sort-All :
      (xs : List A) (r : A)
      → first? (sort (λ a b. ltb (key b) (key a)) xs) ≡ some r
      → All (λ q. key q ≤ key r) xs
  first-sort-All [] r e = tt
  first-sort-All (x ∷ xs) r e =
      let sorted = sort (λ a b. ltb (key b) (key a)) xs in
      let here = first-insert_sorted x sorted in
      elim (Option-cases (first? sorted)) [
        | inl empty ↦ (ground (arith, here, empty), first-sort-none (λ q. key q ≤ key r) xs empty)
        | inr (y, is_y) ↦
            let rest = first-sort-All xs y is_y in
            (
              ground (arith, here, is_y),
              All-map_weaken (λ q. key q ≤ key y) (λ q. key q ≤ key r) xs
                  (λ q h. ground (arith, here, is_y, h)) rest,
            )
      ]

module _ {F : Type 0} where
  -- The candles that a query gives are in the order of their opening times, and each of them answers
  -- the query; there are as many as there are candles in the store that answer it.
  pub get_underlying_candles-IsAscending :
      (query : CandleQuery) (store : JsonlStore F)
      → let given = get_underlying_candles query store in
        IsAscending (λ c. c.open_time) given
        × All (λ c. answers query c ≡ true) given
        × (length given ≡ length (filter (answers query) (init store).underlying_candles.rows))
  unfolding get_underlying_candles
  get_underlying_candles-IsAscending query store =
      let rows = (init store).underlying_candles.rows in
      let found = filter (answers query) rows in
      (
        sort-IsAscending (λ c. c.open_time) found,
        sort-All (λ c. answers query c ≡ true) _ found (filter-All (answers query) rows),
        length-sort _ found,
      )

  -- No replay result of the symbol, window and strategy that are asked for was checked later than the
  -- latest one.
  pub get_latest_replay_result-All :
      (symbol window : String) (strategy_id : Option String) (store : JsonlStore F)
      (latest : ReplayResultRecord F)
      → get_latest_replay_result symbol window strategy_id store ≡ some latest
      → All
          (λ r. r.checked_at ≤ latest.checked_at)
          (filter
            (is_result_of symbol window (get_or strategy_id "fair-value-v1"))
            (init store).replay_results.rows)
  unfolding get_latest_replay_result
  get_latest_replay_result-All symbol window strategy_id store latest e =
      first-sort-All (λ r. r.checked_at) _ latest e

-- As many capture runs are given as are asked for, 20 where nothing is said, but at least 1 and at
-- most 200; or all that there are.
pub length-get_capture_runs :
    {F : Type 0} (limit : Option ℕ) (store : JsonlStore F)
    → length (get_capture_runs limit store)
      ≡ min (max 1 (min 200 (get_or limit 20))) (length (init store).capture_runs.rows)
unfolding get_capture_runs
length-get_capture_runs limit store =
    let rows = (init store).capture_runs.rows in
    let asked = max 1 (min 200 (get_or limit 20)) in
    length-take asked _ ∙ ap (min asked) (length-sort _ rows)
