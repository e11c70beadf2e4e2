-- ===== src/Evidence/Batch.antt =====
-- The rows of a batch are stored together or not at all, and a retry finds them.
use sps_v.Common.{
  String, ◌≡◌, ◌≢◌, ◌⊎◌, refl, sym, ◌∙◌, ap, subst, Bool, true, false, ◌||◌, List, [], ◌∷◌, ◌++◌,
  map, ◌==◌, string_eq, arith, Bool-cases, inl, inr, is_some, find, filter, elem, str_refl, Result,
  ok, err, All, All-map,
}
use mathlib.Core.List.{append-nil}
use sps_v.Db.{Database}
use sps_v.Evidence.{
  EvidenceTable, Reread, get_evidence, is_new, staged, conflicts, reread, reread_result, commit_all,
  persist_all,
}

pub is_some-find-append :
    {A : Type 0} (p : A → Bool) (xs ys : List A)
    → is_some (find p (xs ++ ys)) ≡ (is_some (find p xs) || is_some (find p ys))
unfolding find
is_some-find-append p [] ys = refl
is_some-find-append p (x ∷ xs) ys = ground (arith, is_some-find-append p xs ys)

module _ {A : Type 0} (key : A → String) where
  -- There is a row with the key.
  abbrev pub Has : List A → String → Type 0
  Has rows id = is_some (find (λ r. key r == id) rows) ≡ true

  Has-cons : (rows : List A) (x : A) (id : String) → Has rows id → Has (x ∷ rows) id
  unfolding find
  Has-cons rows x id h = ground arith

  Has-append :
      (rows : List A) (new : List A) (id : String)
      → (Has rows id ⊎ Has new id)
      → Has (rows ++ new) id
  Has-append rows new id (inl h) = ground (arith, is_some-find-append (λ r. key r == id) rows new)
  Has-append rows new id (inr h) = ground (arith, is_some-find-append (λ r. key r == id) rows new)

  Has-middle :
      (rows new : List A) (x : A) (id : String) → Has (rows ++ new) id → Has (rows ++ x ∷ new) id
  unfolding find
  Has-middle rows new x id h = ground (
    arith,
    is_some-find-append (λ r. key r == id) rows new,
    is_some-find-append (λ r. key r == id) rows (x ∷ new),
  )

  -- The keys of the selected rows are keys of rows.
  selected_found : (p : A → Bool) (rows : List A) → All (Has rows) (map key (filter p rows))
  unfolding filter find
  selected_found p [] = tt
  selected_found p (x ∷ xs) =
      let rest =
        All-map (Has xs) (Has (x ∷ xs)) (Has-cons xs x) (map key (filter p xs))
          (selected_found p xs) in
      elim (Bool-cases (p x)) [
        | inl here ↦ rw here (ground (arith, str_refl (key x)), rest)
        | inr past ↦ rw past rest
      ]

module _ {Row : Type 0} (table : EvidenceTable Row) where
  -- What others commit leaves a row for each identifier that has one.
  abbrev pub KeepsRows : (Database → Database) → Database → Type 0
  KeepsRows others db =
      (id : String) → Has table.key (table.rows db) id → Has table.key (table.rows (others db)) id

  staged_new :
      (x : Row) (xs : List Row) (db : Database)
      → is_new table db x ≡ true
      → staged table (x ∷ xs) db ≡ x ∷ staged table xs db
  unfolding staged filter
  staged_new x xs db e = rw e

  staged_old :
      (x : Row) (xs : List Row) (db : Database)
      → is_new table db x ≡ false
      → staged table (x ∷ xs) db ≡ staged table xs db
  unfolding staged filter
  staged_old x xs db e = rw e

  module _ (db : Database) (rows : List Row)
      (kept : (id : String) → Has table.key (table.rows db) id → Has table.key rows id) where
    -- Every record of a batch has a row: an old one, or one that is staged.
    batch_found :
        (records : List Row)
        → All (Has table.key (rows ++ staged table records db)) (map table.key records)
    unfolding find get_evidence
    batch_found [] = tt
    batch_found (x ∷ xs) = elim (Bool-cases (is_new table db x)) [
      | inl new ↦
          subst (λ more. All (Has table.key (rows ++ more)) (map table.key (x ∷ xs)))
            (sym (staged_new x xs db new))
            (
              Has-append table.key rows (x ∷ staged table xs db) (table.key x)
                  (inr (ground (arith, str_refl (table.key x)))),
              All-map (Has table.key (rows ++ staged table xs db))
                  (Has table.key (rows ++ x ∷ staged table xs db))
                  (Has-middle table.key rows (staged table xs db) x) (map table.key xs)
                  (batch_found xs),
            )
      | inr old ↦
          subst (λ more. All (Has table.key (rows ++ more)) (map table.key (x ∷ xs)))
            (sym (staged_old x xs db old))
            (
              Has-append table.key rows (staged table xs db) (table.key x)
                  (inl (kept (table.key x) (ground arith))),
              batch_found xs,
            )
    ]

  reread_found :
      (how : Reread) (records : List Row) (db : Database)
      → All (Has table.key (table.rows db)) (reread table how records db)
  unfolding reread
  reread_found (Reread.of_case id) records db =
      selected_found table.key (λ r. table.case_of r == id) (table.rows db)
  reread_found Reread.of_records records db =
      selected_found table.key (λ r. elem (table.key r) (map table.key records)) (table.rows db)

  pub commit_all-cases :
      (how : Reread) (records new : List Row) (db : Database)
      → ((conflicts table new db ≡ true)
          × (commit_all table how records new db
              ≡ (reread_result table (reread table how records db), db)))
        ⊎ ((conflicts table new db ≡ false)
            × (commit_all table how records new db
                ≡ (ok (map table.key records), table.set_rows (table.rows db ++ new) db)))
  unfolding commit_all
  commit_all-cases how records new db = elim (Bool-cases (conflicts table new db)) [
    | inl v ↦ inl (v, rw v refl)
    | inr v ↦ inr (v, rw v refl)
  ]

  -- What holds of the outcome of an activity.
  abbrev pub IsStored : Result (List String) × Database → Type 0
  IsStored (err e, db) = Unit
  IsStored (ok ids, db) = (ids ≢ []) × All (Has table.key (table.rows db)) ids

  reread_result-IsStored :
      (xs : List String) (db : Database)
      → All (Has table.key (table.rows db)) xs
      → IsStored (reread_result table xs, db)
  reread_result-IsStored [] db h = tt
  reread_result-IsStored (x ∷ xs) db h = (λ q. cc, h)

  commit_all-IsStored :
      (how : Reread) (r : Row) (rs : List Row) (db now : Database)
      → ((id : String) → Has table.key (table.rows db) id → Has table.key (table.rows now) id)
      → IsStored (commit_all table how (r ∷ rs) (staged table (r ∷ rs) db) now)
  commit_all-IsStored how r rs db now kept =
      let new = staged table (r ∷ rs) db in
      elim (commit_all-cases how (r ∷ rs) new now) [
        | inl (v, q) ↦ subst IsStored (sym q) (
            reread_result-IsStored (reread table how (r ∷ rs) now) now
              (reread_found how (r ∷ rs) now))
        | inr (v, q) ↦ subst IsStored (sym q) (
          λ p. cc,
          subst (λ rows. All (Has table.key rows) (map table.key (r ∷ rs)))
              (sym (table.rows-set_rows (table.rows now ++ new) now))
              (batch_found db (table.rows now) kept (r ∷ rs)),
        )
      ]

  -- If others remove no row, an activity that returns gives identifiers, at least one, that all have a
  -- row then.
  pub persist_all_stored :
      (how : Reread) (others : Database → Database) (records : List Row) (db db' : Database)
      (ids : List String)
      → KeepsRows others db
      → persist_all table how others records db ≡ (ok ids, db')
      → (ids ≢ []) × All (Has table.key (table.rows db')) ids
  unfolding persist_all
  persist_all_stored how others [] db db' ids kept e = absurd (cc)
  persist_all_stored how others (r ∷ rs) db db' ids kept e =
      subst IsStored e (commit_all-IsStored how r rs db (others db) kept)

  staged_none :
      (records : List Row) (db : Database)
      → All (Has table.key (table.rows db)) (map table.key records)
      → staged table records db ≡ []
  unfolding get_evidence staged filter
  staged_none [] db h = refl
  staged_none (x ∷ xs) db (here, there) =
      staged_old x xs db (ground arith) ∙ staged_none xs db there

  -- An activity that has returned the identifiers of its records, called again with the same records
  -- on a database that still has the rows, whatever beside it, returns the same and writes nothing.
  pub persist_all-persist_all :
      (how : Reread) (others others' : Database → Database) (records : List Row)
      (db db' later : Database)
      → KeepsRows others db
      → persist_all table how others records db ≡ (ok (map table.key records), db')
      → ((id : String) → Has table.key (table.rows db') id → Has table.key (table.rows later) id)
      → persist_all table how others' records later ≡ (ok (map table.key records), others' later)
  unfolding persist_all commit_all conflicts
  persist_all-persist_all how others others' [] db db' later kept e still = absurd (cc)
  persist_all-persist_all how others others' (r ∷ rs) db db' later kept e still =
      let (some_id, stored) = persist_all_stored how others (r ∷ rs) db db' _ kept e in
      let none_new = staged_none (r ∷ rs) later (
        All-map (Has table.key (table.rows db')) (Has table.key (table.rows later)) still
          (map table.key (r ∷ rs)) stored) in
      let now = others' later in
      rw none_new (
        ap (λ rows. (ok (map table.key (r ∷ rs)), table.set_rows rows now))
          (append-nil (table.rows now))
        ∙ ap (λ d. (ok (map table.key (r ∷ rs)), d)) (table.set_rows-rows now))
