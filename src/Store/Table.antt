-- ===== src/Store/Table.antt =====
-- The loop that every insert method of packages/research-signals/src/store/jsonl-store.ts runs over
-- its records, for a table of any kind of row: check the source, skip a duplicate, else number the
-- row, put it into memory and append it to the file.
pub mod Growth
pub mod Repeat
pub mod Kept
use event_probability_termin.Base.{
  ℕ, ◌+◌, ◌||◌, Bool, List, [], ◌∷◌, ◌++◌, if◌then◌else◌, length, any, Option, none, some,
}

pub record InsertSummary : Type 0 where
  pub records_inserted : ℕ
  pub records_updated : ℕ
  pub records_skipped : ℕ

-- The errors of `assertStoreSource`, and that of `mkdirSync` or `appendFileSync`.
pub data StoreError : Type 0 where
  unsupported_source_type unsupported_provider mock_source write_failed : StoreError

-- What an insert method returns, or throws.
pub data Written : Type 0 where
  done : InsertSummary → Written
  thrown : StoreError → Written

-- The rows in memory, and the lines of the file, each kept as the row that `JSON.parse` makes of it.
-- `json` is what `JSON.parse` gives back of what `JSON.stringify` writes of a row, in which a number
-- that is not finite becomes null, taken to be among the values of its field; and `is_written`
-- says whether the row of this number can be appended at this time; an append that fails is taken to
-- leave the file as it was.
pub record Table (R : Type 0) : Type 0 where
  pub rows : List R
  pub lines : List R
  pub json : R → R
  pub is_written : (now id : ℕ) → Bool

-- How the rows of a table are checked, compared and completed.
pub record Schema (R : Type 0) : Type 0 where
  -- the error that `assertStoreSource` throws, if any
  pub check : R → Option StoreError
  -- the new record is a duplicate of the stored row
  pub same : R → R → Bool
  -- `{ ...record, id, createdAt: record.createdAt ?? now }`
  pub stamp : (id now : ℕ) → R → R

module _ {R : Type 0} (schema : Schema R) where
  unfoldable pub append_row : ℕ → Table R → R → Table R
  append_row now t r =
      let id = length t.rows + 1 in
      let next = schema.stamp id now r in
      record t {
        rows = t.rows ++ next ∷ [];
        lines = if t.is_written now id then t.lines ++ t.json next ∷ [] else t.lines;
      }

  -- No error comes of the record: it is a duplicate, or its row can be appended.
  abbrev pub succeeds : ℕ → Table R → R → Bool
  succeeds now t r = any (schema.same r) t.rows || t.is_written now (length t.rows + 1)

  -- One round of the loop, for a record whose source was accepted.
  unfoldable pub put_row : ℕ → Table R → R → Table R
  unfolding append_row
  put_row now t r = if any (schema.same r) t.rows then t else append_row now t r

  unfoldable pub insert_rows : ℕ → List R → Table R → (inserted skipped : ℕ) → Table R × Written
  insert_rows now [] t inserted skipped = (
    t,
    Written.done
        (record { records_inserted = inserted; records_updated = 0; records_skipped = skipped }),
  )
  insert_rows now (r ∷ rs) t inserted skipped =
      let duplicate = any (schema.same r) t.rows in
      let rest =
        insert_rows now rs (put_row now t r) (if duplicate then inserted else inserted + 1)
          (if duplicate then skipped + 1 else skipped) in
      elim (schema.check r) [
        | none ↦
            if succeeds now t r
            then rest
            else (put_row now t r, Written.thrown StoreError.write_failed)
        | some error ↦ (t, Written.thrown error)
      ]

  unfoldable pub insert_into : ℕ → List R → Table R → Table R × Written
  insert_into now records t = insert_rows now records t 0 0

  -- The methods for one record.
  unfoldable pub insert_record : ℕ → R → Table R → Table R × Written
  unfolding append_row
  insert_record now r t =
      let fresh =
        if any (schema.same r) t.rows
        then (
          t,
          Written.done (record { records_inserted = 0; records_updated = 0; records_skipped = 1 }),
        )
        else (
          append_row now t r,
          (if t.is_written now (length t.rows + 1)
              then Written.done
                  (record { records_inserted = 1; records_updated = 0; records_skipped = 0 })
              else Written.thrown StoreError.write_failed),
        ) in
      elim (schema.check r) [ none ↦ fresh | some error ↦ (t, Written.thrown error) ]

-- `loadTable`: the rows are read from the file.
unfoldable pub load_table : {R : Type 0} → Table R → Table R
load_table t = record t { rows = t.lines }
