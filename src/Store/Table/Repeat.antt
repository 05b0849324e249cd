-- ===== src/Store/Table/Repeat.antt =====
-- What a successful insert reports, and what the same insert does the second time.
use event_probability_termin.Base.{
  ℕ, ◌+◌, ◌≡◌, refl, ◌∙◌, ap, inl, inr, Bool, true, ◌||◌, Option, none, List, [], ◌∷◌, ◌++◌, arith,
  length, any, All, length-append, Option-cases, Bool-cases, if◌then◌else◌,
}
use mathlib.Core.Path.{subst}
use event_probability_termin.Store.Table.{
  succeeds, InsertSummary, Written, Table, Schema, put_row, insert_rows, insert_into, insert_record,
}
use event_probability_termin.Store.Table.Growth.{IsStamping}

module _ {R : Type 0} (schema : Schema R) where
  length-put_row :
      (now : ℕ) (t : Table R) (r : R)
      → length (put_row schema now t r).rows
        ≡ (if any (schema.same r) t.rows then length t.rows else length t.rows + 1)
  unfolding put_row
  length-put_row now t r =
      ground (arith, length-append t.rows (schema.stamp (length t.rows + 1) now r ∷ []))

  insert_rows_counts :
      (now : ℕ) (rs : List R) (t t' : Table R) (i k : ℕ) (s : InsertSummary)
      → insert_rows schema now rs t i k ≡ (t', Written.done s)
      → (s.records_inserted + s.records_skipped ≡ i + k + length rs)
        × (length t'.rows + i ≡ length t.rows + s.records_inserted)
        × (s.records_updated ≡ 0)
  unfolding insert_rows
  insert_rows_counts now [] t t' i k s e = ground arith
  insert_rows_counts now (r ∷ rs) t t' i k s e =
      let duplicate = any (schema.same r) t.rows in
      ground (
        arith,
        length-put_row now t r,
        insert_rows_counts now rs (put_row schema now t r) t' (if duplicate then i else i + 1)
            (if duplicate then k + 1 else k) s,
      )

  -- Every record that was inserted without an error is reported as inserted or skipped, none as
  -- updated, and the table has grown by those inserted.
  pub insert_counts :
      (now : ℕ) (records : List R) (t t' : Table R) (s : InsertSummary)
      → insert_into schema now records t ≡ (t', Written.done s)
      → (s.records_inserted + s.records_skipped ≡ length records)
        × (length t'.rows ≡ length t.rows + s.records_inserted)
        × (s.records_updated ≡ 0)
  unfolding insert_into
  insert_counts now records t t' s e = omega (arith, insert_rows_counts now records t t' 0 0 s e)

  module _ (id_of : R → Option ℕ) (stamping : IsStamping schema id_of)
      (same_refl : (r : R) → schema.same r r ≡ true) where
    -- The record is a duplicate of a row.
    abbrev IsHeld : Table R → R → Type 0
    IsHeld t r = any (schema.same r) t.rows ≡ true

    any-append :
        (test : R → Bool) (xs ys : List R) → any test (xs ++ ys) ≡ (any test xs || any test ys)
    any-append test [] ys = refl
    any-append test (x ∷ xs) ys = ground (arith, any-append test xs ys)

    put_row-keeps :
        (now : ℕ) (t : Table R) (r q : R) → IsHeld t q → IsHeld (put_row schema now t r) q
    unfolding put_row
    put_row-keeps now t r q h =
        ground
          (arith, any-append (schema.same q) t.rows (schema.stamp (length t.rows + 1) now r ∷ []))

    put_row-holds : (now : ℕ) (t : Table R) (r : R) → IsHeld (put_row schema now t r) r
    unfolding put_row
    put_row-holds now t r = ground (
      arith,
      any-append (schema.same r) t.rows (schema.stamp (length t.rows + 1) now r ∷ []),
      stamping.keeps_stored (length t.rows + 1) now r r,
      same_refl r,
    )

    insert_rows-keeps :
        (now : ℕ) (rs : List R) (t : Table R) (i k : ℕ) (q : R)
        → IsHeld t q
        → IsHeld (insert_rows schema now rs t i k).0 q
    unfolding insert_rows
    insert_rows-keeps now [] t i k q h = h
    insert_rows-keeps now (r ∷ rs) t i k q h =
        let rest =
          insert_rows-keeps now rs (put_row schema now t r) _ _ q (put_row-keeps now t r q h) in
        elim (Option-cases (schema.check r)) [
          | inr (error, bad) ↦ rw (bad, insert_rows) h
          | inl ok ↦ elim (Bool-cases (succeeds schema now t r)) [
            | inl good ↦ rw (ok, good, insert_rows) rest
            | inr failed ↦ rw (ok, failed, insert_rows) (put_row-keeps now t r q h)
          ]
        ]

    -- A record that was accepted and is held.
    abbrev IsSettled : Table R → R → Type 0
    IsSettled t r = (schema.check r ≡ none) × IsHeld t r

    insert_rows-settles :
        (now : ℕ) (rs : List R) (t t' : Table R) (i k : ℕ) (s : InsertSummary)
        → insert_rows schema now rs t i k ≡ (t', Written.done s)
        → All (IsSettled t') rs
    unfolding insert_rows
    insert_rows-settles now [] t t' i k s e = tt
    insert_rows-settles now (r ∷ rs) t t' i k s e =
        let duplicate = any (schema.same r) t.rows in
        let i' : ℕ = if duplicate then i else i + 1 in
        let k' : ℕ = if duplicate then k + 1 else k in
        let next = put_row schema now t r in
        let held = insert_rows-keeps now rs next i' k' r (put_row-holds now t r) in
        elim (Option-cases (schema.check r)) [
          | inl ok ↦
              let rest : insert_rows schema now rs next i' k' ≡ (t', Written.done s) =
                ground arith in
              (
                (ok, subst (λ u. IsHeld u r) (ap (λ p. p.0) rest) held),
                insert_rows-settles now rs next t' i' k' s rest,
              )
          | inr (error, bad) ↦ absurd (ground arith)
        ]

    settled_again :
        (now : ℕ) (rs : List R) (t : Table R) (i k : ℕ)
        → All (IsSettled t) rs
        → insert_rows schema now rs t i k ≡ (
          t,
          Written.done (record {
            records_inserted = i;
            records_updated = 0;
            records_skipped = k + length rs;
          }),
        )
    unfolding insert_rows put_row
    settled_again now [] t i k h = ground arith
    settled_again now (r ∷ rs) t i k ((ok, held), h) =
        rw (ok, insert_rows) (rw (held, settled_again now rs t i (k + 1) h) (ground arith))

    -- Where a record is a duplicate of itself, and numbering and dating a row does not change what it
    -- duplicates: inserting the same records a second time, after they were inserted without an
    -- error, changes nothing and reports each of them as skipped.
    pub insert_twice :
        (now later : ℕ) (records : List R) (t t' : Table R) (s : InsertSummary)
        → insert_into schema now records t ≡ (t', Written.done s)
        → insert_into schema later records t' ≡ (
          t',
          Written.done (record {
            records_inserted = 0;
            records_updated = 0;
            records_skipped = length records;
          }),
        )
    unfolding insert_into
    insert_twice now later records t t' s e =
        settled_again later records t' 0 0 (insert_rows-settles now records t t' 0 0 s e)
        ∙ ground arith

  -- The methods for one record do what those for many do with a list of one.
  pub insert_record_lem :
      (now : ℕ) (r : R) (t : Table R)
      → insert_record schema now r t ≡ insert_into schema now (r ∷ []) t
  unfolding insert_record insert_into insert_rows put_row
  insert_record_lem now r t = ground arith
