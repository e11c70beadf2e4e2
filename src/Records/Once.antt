-- ===== src/Records/Once.antt =====
-- A record is stored once, under its identifier, whatever runs beside it.
use sps_v.Common.{
  String, ◌≡◌, ◌⊎◌, refl, sym, ◌∙◌, ap, true, false, none, some, [], ◌∷◌, ◌++◌, ◌==◌, string_eq,
  arith, Bool-cases, inl, inr, is_some, find, find-append_new, find-append_old, str_refl, ok, err,
  Error,
}
use sps_v.Db.{Database}
use sps_v.Records.{
  RecordTable, get_attempt, has_case, is_attempt_of, get_row, violates, reload, commit, persist,
}

module _ {Row : Type 0} (table : RecordTable Row) where
  pub commit-cases :
      (row : Row) (db : Database)
      → ((violates table row db ≡ true) × (commit table row db ≡ reload table row db))
        ⊎ ((violates table row db ≡ false)
            × (commit table row db
                ≡ (ok (table.key row), table.set_rows (table.rows db ++ row ∷ []) db)))
  unfolding commit
  commit-cases row db = elim (Bool-cases (violates table row db)) [
    | inl v ↦ inl (v, rw v refl)
    | inr v ↦ inr (v, rw v refl)
  ]

  -- How an activity ends.
  pub persist-cases :
      (others : Database → Database) (row : Row) (db : Database)
      → ((is_some (get_row table (table.key row) db) ≡ true)
          × (persist table others row db ≡ (ok (table.key row), db)))
        ⊎ ((persist table others row db ≡ (err Error.lookup_error, db))
            ⊎ ((is_some (get_row table (table.key row) db) ≡ false)
                × (is_attempt_of table (table.case_of row) (get_attempt (table.attempt_of row) db)
                    ≡ true)
                × (persist table others row db ≡ commit table row (others db))))
  unfolding persist
  persist-cases others row db = elim (Bool-cases (is_some (get_row table (table.key row) db))) [
    | inl old ↦ inl (old, ground arith)
    | inr new ↦ elim (Bool-cases (has_case (table.case_of row) db)) [
      | inr missing ↦ inr (inl (ground arith))
      | inl there ↦
          elim (Bool-cases
            (is_attempt_of table (table.case_of row) (get_attempt (table.attempt_of row) db))) [
              | inr other ↦ inr (inl (ground arith))
              | inl own ↦ inr (inr (new, own, ground arith))
            ]
    ]
  ]

  get_row-append_new :
      (row : Row) (db : Database)
      → is_some (get_row table (table.key row) db) ≡ false
      → get_row table (table.key row) (table.set_rows (table.rows db ++ row ∷ []) db) ≡ some row
  unfolding get_row
  get_row-append_new row db new =
      ap (find (λ r. table.key r == table.key row))
        (table.rows-set_rows (table.rows db ++ row ∷ []) db)
      ∙ find-append_new (λ r. table.key r == table.key row) (table.rows db) row (ground arith)
          (str_refl (table.key row))

  get_row-append_old :
      (id : String) (row old : Row) (db : Database)
      → get_row table id db ≡ some old
      → get_row table id (table.set_rows (table.rows db ++ row ∷ []) db) ≡ some old
  unfolding get_row
  get_row-append_old id row old db there =
      ap (find (λ r. table.key r == id)) (table.rows-set_rows (table.rows db ++ row ∷ []) db)
      ∙ find-append_old (λ r. table.key r == id) (table.rows db) (row ∷ []) old there

  commit_stored :
      (row : Row) (db db' : Database) (id : String)
      → commit table row db ≡ (ok id, db')
      → (id ≡ table.key row) × (is_some (get_row table (table.key row) db') ≡ true)
  unfolding reload violates
  commit_stored row db db' id e = elim (commit-cases row db) [
    | inl (v, q) ↦ elim (Bool-cases (is_some (get_row table (table.key row) db))) [
      | inl there ↦ (ground arith, ground arith)
      | inr missing ↦ absurd (ground arith)
    ]
    | inr (v, q) ↦ (ground arith, ground (arith, get_row-append_new row db (ground arith)))
  ]

  module _ (others : Database → Database) (row : Row) (db db' : Database) (id : String)
      (e : persist table others row db ≡ (ok id, db')) where
    -- An activity that returns, returns the identifier of its record, and there is a row with it.
    pub persist_stored : (id ≡ table.key row) × (is_some (get_row table (table.key row) db') ≡ true)
    persist_stored = elim (persist-cases others row db) [
      | inl (there, q) ↦ (ground arith, ground arith)
      | inr (inl q) ↦ absurd (cc)
      | inr (inr (new, own, q)) ↦ commit_stored row (others db) db' id (sym q ∙ e)
    ]

    -- Once an activity has returned, a later one for the same identifier, with whatever content and
    -- whatever beside it, on a database that has the same row there, returns the same and writes
    -- nothing.
    pub persist-persist :
        (others' : Database → Database) (row' : Row) (later : Database)
        → table.key row' ≡ table.key row
        → get_row table (table.key row) later ≡ get_row table (table.key row) db'
        → persist table others' row' later ≡ (ok id, later)
    unfolding persist
    persist-persist others' row' later same kept =
        let (name, there) = persist_stored in
        let here : is_some (get_row table (table.key row') later) ≡ true = rw (same, kept) there in
        rw here (rw (same, name) refl)

  -- An activity that finds no row with its identifier, alone, and returns, has stored its record.
  pub get_row-persist :
      (row : Row) (db db' : Database) (id : String)
      → get_row table (table.key row) db ≡ none
      → persist table (λ d. d) row db ≡ (ok id, db')
      → get_row table id db' ≡ some row
  unfolding reload
  get_row-persist row db db' id new e = elim (persist-cases (λ d. d) row db) [
    | inl (there, q) ↦ absurd (ground arith)
    | inr (inl q) ↦ absurd (cc)
    | inr (inr (free, own, q)) ↦ elim (commit-cases row db) [
      | inl (v, p) ↦ absurd (ground arith)
      | inr (v, p) ↦ ground (arith, get_row-append_new row db free)
    ]
  ]

  -- A row that is stored, before and after what others commit, is as it was after an activity,
  -- whatever that stores: the first content of an identifier stays.
  pub get_row-persist_old :
      (others : Database → Database) (row : Row) (db : Database) (id : String) (old : Row)
      → get_row table id db ≡ some old
      → get_row table id (others db) ≡ some old
      → get_row table id (persist table others row db).1 ≡ some old
  unfolding reload
  get_row-persist_old others row db id old now after = elim (persist-cases others row db) [
    | inl (there, q) ↦ rw q now
    | inr (inl q) ↦ rw q now
    | inr (inr (free, own, q)) ↦ elim (commit-cases row (others db)) [
      | inl (v, p) ↦ ground arith
      | inr (v, p) ↦ rw (q, p) (get_row-append_old id row old (others db) after)
    ]
  ]

  -- An activity that raises has written nothing: the database is as it was, or as others left it.
  pub persist_raises :
      (others : Database → Database) (row : Row) (db db' : Database) (x : Error)
      → persist table others row db ≡ (err x, db')
      → (db' ≡ db) ⊎ (db' ≡ others db)
  unfolding reload
  persist_raises others row db db' x e = elim (persist-cases others row db) [
    | inl (there, q) ↦ absurd (cc)
    | inr (inl q) ↦ inl (ground arith)
    | inr (inr (free, own, q)) ↦ elim (commit-cases row (others db)) [
      | inl (v, p) ↦ inr (ground arith)
      | inr (v, p) ↦ absurd (cc)
    ]
  ]

  -- No activity of this kind touches the cases.
  pub cases-persist :
      (others : Database → Database) (row : Row) (db : Database)
      → ((persist table others row db).1.permit_cases ≡ db.permit_cases)
        ⊎ ((persist table others row db).1.permit_cases ≡ (others db).permit_cases)
  unfolding reload
  cases-persist others row db = elim (persist-cases others row db) [
    | inl (there, q) ↦ inl (rw q refl)
    | inr (inl q) ↦ inl (rw q refl)
    | inr (inr (free, own, q)) ↦ elim (commit-cases row (others db)) [
      | inl (v, p) ↦ inr (ground arith)
      | inr (v, p) ↦
          inr (rw (q, p) (table.cases-set_rows (table.rows (others db) ++ row ∷ []) (others db)))
    ]
  ]
