-- ===== src/Records/Linked.antt =====
-- Every stored record is on an attempt of its own case; and a record on such an attempt is stored.
use sps_v.Common.{
  String, ◌≡◌, sym, subst, true, some, [], ◌∷◌, ◌++◌, string_eq, arith, Bool-cases, Option-cases,
  inl, inr, is_some, eq_iff, ok, All, All-append, All-map,
}
use sps_v.Db.{Database, SubmissionAttempt}
use sps_v.Records.Once.{persist-cases, commit-cases}
use sps_v.Records.{
  RecordTable, get_attempt, has_case, is_attempt_of, get_row, violates, reload, persist,
}

-- Attempts stay, as they are.
abbrev pub KeepsAttempts : Database → Database → Type 0
KeepsAttempts db db' =
    (id : String) (a : SubmissionAttempt) → get_attempt id db ≡ some a → get_attempt id db' ≡ some a

module _ {Row : Type 0} (table : RecordTable Row) where
  -- The record's attempt is there, and is an attempt of the record's case.
  abbrev pub HasAttempt : Database → Row → Type 0
  HasAttempt db r =
      (a : SubmissionAttempt) × (get_attempt (table.attempt_of r) db ≡ some a)
      × (a.case_id ≡ table.case_of r)

  abbrev pub IsLinked : Database → Type 0
  IsLinked db = All (HasAttempt db) (table.rows db)

  HasAttempt-attempt :
      (row : Row) (db : Database)
      → is_attempt_of table (table.case_of row) (get_attempt (table.attempt_of row) db) ≡ true
      → HasAttempt db row
  HasAttempt-attempt row db h = elim (Option-cases (get_attempt (table.attempt_of row) db)) [
    | inl missing ↦ absurd (ground arith)
    | inr (a, found) ↦ (a, found, ground (arith, eq_iff a.case_id (table.case_of row)))
  ]

  IsLinked-append :
      (row : Row) (db : Database)
      → HasAttempt db row
      → IsLinked db
      → IsLinked (table.set_rows (table.rows db ++ row ∷ []) db)
  IsLinked-append row db h linked =
      let rows = table.rows db ++ row ∷ [] in
      let next = table.set_rows rows db in
      subst (λ xs. All (HasAttempt next) xs) (sym (table.rows-set_rows rows db))
        (All-map (HasAttempt db) (HasAttempt next)
          (λ r p. let (a, found, same) = p in (a, rw (table.attempts-set_rows rows db) found, same))
          rows (All-append (HasAttempt db) (table.rows db) row linked h))

  -- If other transactions keep the attempts and leave every record linked, an activity, however it
  -- ends, leaves every record of its table on an attempt of the record's own case.
  pub persist-IsLinked :
      (others : Database → Database) (row : Row) (db : Database)
      → KeepsAttempts db (others db)
      → IsLinked db
      → IsLinked (others db)
      → IsLinked (persist table others row db).1
  unfolding reload
  persist-IsLinked others row db keeps now after = elim (persist-cases table others row db) [
    | inl (there, q) ↦ rw q now
    | inr (inl q) ↦ rw q now
    | inr (inr (free, own, q)) ↦ elim (commit-cases table row (others db)) [
      | inl (v, p) ↦ elim (Bool-cases (is_some (get_row table (table.key row) (others db)))) [
        | inl won ↦ rw (q, p, won) after
        | inr lost ↦ rw (q, p, lost) after
      ]
      | inr (v, p) ↦
          let (a, found, same) = HasAttempt-attempt row db own in
          rw (q, p)
            (IsLinked-append row (others db) (a, keeps (table.attempt_of row) a found, same) after)
    ]
  ]

  -- If the case is there, before and after what others commit, and the attempt is an attempt of it,
  -- which they keep, the activity returns the record's identifier.
  pub persist_returns :
      (others : Database → Database) (row : Row) (db : Database)
      → KeepsAttempts db (others db)
      → has_case (table.case_of row) db ≡ true
      → has_case (table.case_of row) (others db) ≡ true
      → HasAttempt db row
      → (persist table others row db).0 ≡ ok (table.key row)
  unfolding reload violates persist
  persist_returns others row db keeps case later_case (a, found, same) =
      let kept = keeps (table.attempt_of row) a found in
      elim (Bool-cases (is_some (get_row table (table.key row) db))) [
        | inl old ↦ ground arith
        | inr new ↦ elim (commit-cases table row (others db)) [
          | inr (v, p) ↦ ground (arith, eq_iff a.case_id (table.case_of row))
          | inl (v, p) ↦
              let won : is_some (get_row table (table.key row) (others db)) ≡ true = ground arith in
              ground (arith, eq_iff a.case_id (table.case_of row))
        ]
      ]
