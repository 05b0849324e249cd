-- ===== src/Store/Table/Growth.antt =====
-- How a table grows: numbering, duplicates, and agreement of memory and file.
use event_probability_termin.Base.{
  ℕ, suc, ◌+◌, ◌≡◌, refl, ◌∙◌, ap, inl, inr, false, Option, none, some, List, [], ◌∷◌, ◌++◌, arith,
  length, any, All, map, true, ◌⊎◌, All-append, Bool-cases, Option-cases,
}
use mathlib.Core.List.{append-nil, append_assoc, map-append}
use event_probability_termin.Store.Table.{
  StoreError, Written, succeeds, Table, Schema, put_row, insert_rows, insert_into,
}

module _ {R : Type 0} (id_of : R → Option ℕ) where
  -- The rows bear the numbers from `n` on.
  abbrev pub IsNumberedFrom : ℕ → List R → Type 0
  IsNumberedFrom n [] = Unit
  IsNumberedFrom n (r ∷ rs) = (id_of r ≡ some n) × IsNumberedFrom (suc n) rs

  IsNumberedFrom-append :
      (n : ℕ) (rs : List R) (r : R)
      → IsNumberedFrom n rs
      → id_of r ≡ some (n + length rs)
      → IsNumberedFrom n (rs ++ r ∷ [])
  IsNumberedFrom-append n [] r h e = (e ∙ ap some (omega arith), tt)
  IsNumberedFrom-append n (q ∷ rs) r (k, h) e =
      (k, IsNumberedFrom-append (suc n) rs r h (e ∙ ap some (omega arith)))

module _ {R : Type 0} (schema : Schema R) where
  -- No row is a duplicate of an earlier one.
  abbrev pub IsDistinct : List R → List R → Type 0
  IsDistinct earlier [] = Unit
  IsDistinct earlier (r ∷ rs) =
      (any (schema.same r) earlier ≡ false) × IsDistinct (earlier ++ r ∷ []) rs

  IsDistinct-append :
      (earlier rs : List R) (r : R)
      → IsDistinct earlier rs
      → any (schema.same r) (earlier ++ rs) ≡ false
      → IsDistinct earlier (rs ++ r ∷ [])
  IsDistinct-append earlier [] r h e = (rw append-nil at e, tt)
  IsDistinct-append earlier (q ∷ rs) r (k, h) e =
      (k, IsDistinct-append (earlier ++ q ∷ []) rs r h (rw (append_assoc earlier (q ∷ []) rs) e))

  -- What the code relies on in completing a row.
  pub record IsStamping (id_of : R → Option ℕ) : Type 0 where
    pub numbers : (id now : ℕ) (r : R) → id_of (schema.stamp id now r) ≡ some id
    pub keeps_check : (id now : ℕ) (r : R) → schema.check (schema.stamp id now r) ≡ schema.check r
    pub keeps : (id now : ℕ) (r q : R) → schema.same (schema.stamp id now r) q ≡ schema.same r q
    pub keeps_stored :
        (id now : ℕ) (r q : R) → schema.same r (schema.stamp id now q) ≡ schema.same r q

  -- The rows are numbered 1, 2, 3 and so on; no row is a duplicate of an earlier one; the source of
  -- every row was accepted.
  pub record IsSound (id_of : R → Option ℕ) (rows : List R) : Type 0 where
    pub numbered : IsNumberedFrom id_of 1 rows
    pub distinct : IsDistinct [] rows
    pub checked : All (λ r. schema.check r ≡ none) rows

  module _ (id_of : R → Option ℕ) (stamping : IsStamping id_of) where
    any-stamp :
        (id now : ℕ) (r : R) (rows : List R)
        → any (schema.same (schema.stamp id now r)) rows ≡ any (schema.same r) rows
    any-stamp id now r [] = refl
    any-stamp id now r (q ∷ rows) =
        ground (arith, stamping.keeps id now r q, any-stamp id now r rows)

    pub put_row-IsSound :
        (now : ℕ) (t : Table R) (r : R)
        → IsSound id_of t.rows
        → schema.check r ≡ none
        → IsSound id_of (put_row schema now t r).rows
    unfolding put_row
    put_row-IsSound now t r s ok = elim (Bool-cases (any (schema.same r) t.rows)) [
      | inl old ↦ rw old s
      | inr new ↦
          let id = length t.rows + 1 in
          let next = schema.stamp id now r in
          rw new (record {
            numbered =
                IsNumberedFrom-append id_of 1 t.rows next s.numbered
                  (stamping.numbers id now r ∙ ap some (omega arith));
            checked =
                All-append (λ r. schema.check r ≡ none) t.rows (next ∷ []) s.checked
                  (stamping.keeps_check id now r ∙ ok, tt);
            distinct =
                IsDistinct-append [] t.rows next s.distinct (any-stamp id now r t.rows ∙ new);
          })
    ]

    -- The file has what `json` makes of every row.
    abbrev pub IsSynced : Table R → Type 0
    IsSynced t = t.lines ≡ map t.json t.rows

    -- The file has what `json` makes of every row but the last.
    abbrev pub LacksLast : Table R → Type 0
    LacksLast t =
        (earlier : List R) × (last : R) × (t.rows ≡ earlier ++ last ∷ [])
        × (t.lines ≡ map t.json earlier)

    pub put_row-IsSynced :
        (now : ℕ) (t : Table R) (r : R)
        → IsSynced t
        → succeeds schema now t r ≡ true
        → IsSynced (put_row schema now t r)
    unfolding put_row
    put_row-IsSynced now t r synced ok = elim (Bool-cases (any (schema.same r) t.rows)) [
      | inl old ↦ rw old synced
      | inr new ↦
          let written : t.is_written now (length t.rows + 1) ≡ true = ground (arith, ok, new) in
          rw (new, written, map-append t.json t.rows (schema.stamp (length t.rows + 1) now r ∷ []))
            (ap (λ l. l ++ t.json (schema.stamp (length t.rows + 1) now r) ∷ []) synced)
    ]

    put_row-LacksLast :
        (now : ℕ) (t : Table R) (r : R)
        → IsSynced t
        → succeeds schema now t r ≡ false
        → LacksLast (put_row schema now t r)
    unfolding put_row
    put_row-LacksLast now t r synced failed =
        let new : any (schema.same r) t.rows ≡ false = ground (arith, failed) in
        let lost : t.is_written now (length t.rows + 1) ≡ false = ground (arith, failed) in
        rw (new, lost) (t.rows, schema.stamp (length t.rows + 1) now r, refl, synced)

    -- What an insertion leaves: sound rows; and a file with all of them, or else the write of the
    -- last one has failed, which is the error that is thrown.
    abbrev pub IsLeft : Table R × Written → Type 0
    IsLeft (t, outcome) =
        IsSound id_of t.rows
        × (IsSynced t ⊎ ((outcome ≡ Written.thrown StoreError.write_failed) × LacksLast t))

    insert_rows-IsLeft :
        (now : ℕ) (rs : List R) (t : Table R) (i k : ℕ)
        → IsSound id_of t.rows
        → IsSynced t
        → IsLeft (insert_rows schema now rs t i k)
    unfolding insert_rows
    insert_rows-IsLeft now [] t i k s synced = (s, inl synced)
    insert_rows-IsLeft now (r ∷ rs) t i k s synced = elim (Option-cases (schema.check r)) [
      | inr (error, bad) ↦ rw (bad, insert_rows) (s, inl synced)
      | inl ok ↦
          let put = put_row-IsSound now t r s ok in
          elim (Bool-cases (succeeds schema now t r)) [
            | inl good ↦
                rw (ok, good, insert_rows)
                  (insert_rows-IsLeft now rs (put_row schema now t r) _ _ put
                    (put_row-IsSynced now t r synced good))
            | inr bad ↦
                rw (ok, bad, insert_rows) (put, inr (refl, put_row-LacksLast now t r synced bad))
          ]
    ]

    -- Where numbering and dating a row changes neither what it duplicates nor its source: inserting
    -- records into a table whose rows are sound and all in the file leaves sound rows, also where an
    -- error stops it on the way: they are numbered 1, 2, 3 and so on, none duplicates an earlier one,
    -- and the source of each is one that the check accepts. Afterwards each of them is in the file, as
    -- JSON keeps it, unless a write has failed: then that error is thrown, and the file has all rows
    -- but the last.
    pub insert-IsSound :
        (now : ℕ) (records : List R) (t : Table R)
        → IsSound id_of t.rows
        → IsSynced t
        → let (next, outcome) = insert_into schema now records t in
          IsSound id_of next.rows
          × (IsSynced next ⊎ ((outcome ≡ Written.thrown StoreError.write_failed) × LacksLast next))
    unfolding insert_into
    insert-IsSound now records t s synced = insert_rows-IsLeft now records t 0 0 s synced
