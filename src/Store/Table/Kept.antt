-- ===== src/Store/Table/Kept.antt =====
-- What insertions and the reading of the file keep of a table.
use event_probability_termin.Base.{
  ℕ, suc, ◌+◌, ◌≡◌, refl, sym, ap, ◌∙◌, inl, inr, true, Option, none, List, [], ◌∷◌, ◌++◌, arith,
  length, any, map, All, All-append, Bool-cases, Option-cases,
}
use mathlib.Core.List.{map-append}
use mathlib.Core.Path.{subst}
use event_probability_termin.Store.Table.{
  Table, Schema, succeeds, put_row, insert_rows, insert_into, insert_record, load_table,
}
use event_probability_termin.Store.Table.Growth.{
  IsNumberedFrom, IsDistinct, IsStamping, IsSound, put_row-IsSound, put_row-IsSynced,
}
use event_probability_termin.Store.Table.Repeat.{insert_record_lem}

module _ {R : Type 0} (schema : Schema R) where
  -- What every round of the loop keeps is kept by an insertion, whatever stops it.
  module _ (P : Table R → Type 0) (now : ℕ)
      (put : (t : Table R) (r : R) → P t → schema.check r ≡ none → P (put_row schema now t r)) where
    insert_rows-keeps_all :
        (rs : List R) (t : Table R) (i k : ℕ) → P t → P (insert_rows schema now rs t i k).0
    unfolding insert_rows
    insert_rows-keeps_all [] t i k p = p
    insert_rows-keeps_all (r ∷ rs) t i k p = elim (Option-cases (schema.check r)) [
      | inr (error, bad) ↦ rw (bad, insert_rows) p
      | inl ok ↦
          let next = put t r p ok in
          elim (Bool-cases (succeeds schema now t r)) [
            | inl good ↦
                rw (ok, good, insert_rows)
                  (insert_rows-keeps_all rs (put_row schema now t r) _ _ next)
            | inr failed ↦ rw (ok, failed, insert_rows) next
          ]
    ]

    pub insert-keeps_all :
        (records : List R) (t : Table R) → P t → P (insert_into schema now records t).0
    unfolding insert_into
    insert-keeps_all records t p = insert_rows-keeps_all records t 0 0 p

    pub insert_record-keeps_all : (r : R) (t : Table R) → P t → P (insert_record schema now r t).0
    insert_record-keeps_all r t p =
        rw (insert_record_lem schema now r t) (insert-keeps_all (r ∷ []) t p)

  -- The sources of the rows in memory and in the file were accepted, and JSON keeps them.
  pub record IsChecked (t : Table R) : Type 0 where
    pub rows : All (λ r. schema.check r ≡ none) t.rows
    pub lines : All (λ r. schema.check r ≡ none) t.lines
    pub json : (r : R) → schema.check (t.json r) ≡ schema.check r

  put_row-disk :
      (now : ℕ) (t : Table R) (r : R)
      → ((put_row schema now t r).json ≡ t.json)
        × ((put_row schema now t r).is_written ≡ t.is_written)
  unfolding put_row
  put_row-disk now t r = elim (Bool-cases (any (schema.same r) t.rows)) [
    | inl old ↦ rw old (refl, refl)
    | inr new ↦ rw new (refl, refl)
  ]

  module _ (id_of : R → Option ℕ) where
    -- What JSON keeps of a row: its number, its source, and what it is a duplicate of. What it does
    -- not keep, as a number that is not finite, it changes only once.
    pub record IsJson (json : R → R) : Type 0 where
      pub once : (r : R) → json (json r) ≡ json r
      pub numbers : (r : R) → id_of (json r) ≡ id_of r
      pub keeps_check : (r : R) → schema.check (json r) ≡ schema.check r
      pub keeps : (r q : R) → schema.same (json r) q ≡ schema.same r q
      pub keeps_stored : (r q : R) → schema.same r (json q) ≡ schema.same r q

    -- The rows are sound, each is in the file as JSON keeps it, and no write fails.
    pub record IsKept (t : Table R) : Type 0 where
      pub sound : IsSound schema id_of t.rows
      pub synced : t.lines ≡ map t.json t.rows
      pub written : (now id : ℕ) → t.is_written now id ≡ true
      pub json : IsJson t.json

    module _ (json : R → R) (laws : IsJson json) where
      numbered_json :
          (n : ℕ) (rs : List R) → IsNumberedFrom id_of n rs → IsNumberedFrom id_of n (map json rs)
      numbered_json n [] h = tt
      numbered_json n (r ∷ rs) (e, h) = (laws.numbers r ∙ e, numbered_json (suc n) rs h)

      any_json :
          (r : R) (rs : List R) → any (schema.same (json r)) (map json rs) ≡ any (schema.same r) rs
      any_json r [] = refl
      any_json r (q ∷ rs) =
          ground (arith, any_json r rs, laws.keeps r (json q), laws.keeps_stored r q)

      distinct_json :
          (earlier rs : List R)
          → IsDistinct schema earlier rs
          → IsDistinct schema (map json earlier) (map json rs)
      distinct_json earlier [] h = tt
      distinct_json earlier (r ∷ rs) (e, h) = (
        any_json r earlier ∙ e,
        subst (λ l. IsDistinct schema l (map json rs)) (map-append json earlier (r ∷ []))
            (distinct_json (earlier ++ r ∷ []) rs h),
      )

      checked_json :
          (rs : List R)
          → All (λ r. schema.check r ≡ none) rs
          → All (λ r. schema.check r ≡ none) (map json rs)
      checked_json [] h = tt
      checked_json (r ∷ rs) (e, h) = (laws.keeps_check r ∙ e, checked_json rs h)

      map_once : (rs : List R) → map json rs ≡ map json (map json rs)
      map_once [] = refl
      map_once (r ∷ rs) = rw (laws.once r, ← map_once rs) refl

      pub json-IsSound :
          (rs : List R) → IsSound schema id_of rs → IsSound schema id_of (map json rs)
      json-IsSound rs s = record {
        numbered = numbered_json 1 rs s.numbered;
        distinct = distinct_json [] rs s.distinct;
        checked = checked_json rs s.checked;
      }

    module _ (stamping : IsStamping schema id_of) where
      pub put_row-IsKept :
          (now : ℕ) (t : Table R) (r : R)
          → IsKept t
          → schema.check r ≡ none
          → IsKept (put_row schema now t r)
      put_row-IsKept now t r k ok =
          let same = put_row-disk now t r in
          record {
            sound = put_row-IsSound schema id_of stamping now t r k.sound ok;
            synced =
                put_row-IsSynced schema id_of stamping now t r k.synced
                  (ground (arith, k.written now (length t.rows + 1)));
            written = subst (λ w. (a b : ℕ) → w a b ≡ true) (sym same.1) k.written;
            json = subst IsJson (sym same.0) k.json;
          }

      pub put_row-IsChecked :
          (now : ℕ) (t : Table R) (r : R)
          → IsChecked t
          → schema.check r ≡ none
          → IsChecked (put_row schema now t r)
      unfolding put_row
      put_row-IsChecked now t r k ok =
          let id = length t.rows + 1 in
          let next = schema.stamp id now r in
          let fine = stamping.keeps_check id now r ∙ ok in
          let rows = All-append (λ q. schema.check q ≡ none) t.rows (next ∷ []) k.rows (fine, tt) in
          elim (Bool-cases (any (schema.same r) t.rows)) [
            | inl old ↦ rw old k
            | inr new ↦ elim (Bool-cases (t.is_written now id)) [
              | inl good ↦
                  rw (new, good)
                    (record {
                      rows = rows;
                      lines =
                          All-append (λ q. schema.check q ≡ none) t.lines (t.json next ∷ []) k.lines
                            (k.json next ∙ fine, tt);
                      json = k.json;
                    })
              | inr lost ↦ rw (new, lost) (record { rows = rows; lines = k.lines; json = k.json })
            ]
          ]

    -- The table that is read from the file.
    pub load-IsKept : (t : Table R) → IsKept t → IsKept (load_table t)
    unfolding load_table
    load-IsKept t k = record {
      sound =
          subst (IsSound schema id_of) (sym k.synced) (json-IsSound t.json k.json t.rows k.sound);
      synced = k.synced ∙ map_once t.json k.json t.rows ∙ ap (map t.json) (sym k.synced);
      written = k.written;
      json = k.json;
    }

  pub load-IsChecked : (t : Table R) → IsChecked t → IsChecked (load_table t)
  unfolding load_table
  load-IsChecked t k = record { rows = k.lines; lines = k.lines; json = k.json }
