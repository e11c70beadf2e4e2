-- ===== src/Evidence/Gates.antt =====
-- What a batch of jurisdictions does for the gate that asks for one.
use sps_v.Common.{
  String, ◌≡◌, ◌≢◌, ◌⊎◌, refl, sym, ◌∙◌, ap, subst, Bool, true, some, List, [], ◌∷◌, ◌++◌, map,
  ◌==◌, string_eq, arith, Bool-cases, inl, inr, find, filter, eq_iff, Result, ok, err, All, Exists,
  Option-cases,
}
use sps_v.Contracts.CaseState.{intake_complete, jurisdiction_complete}
use sps_v.Contracts.Transition.{StateTransitionRequest}
use sps_v.Assertions.{Registry}
use sps_v.Db.{Database, PermitCase, JurisdictionResolution}
use sps_v.Guard.Branch.{Branch}
use sps_v.Guard.Gates.{apply_at}
use sps_v.Guard.Spec.{Edge}
use sps_v.Guard.Apply.{requested_at, get_case, evaluate}
use sps_v.Guard.Apply.Exact.{evaluate_complete}
use sps_v.Evidence.{
  EvidenceTable, Reread, get_evidence, staged, reread, reread_result, commit_all, persist_all,
  jurisdiction_resolutions, PersistEvidenceRequest, persist_jurisdiction_resolutions,
}
use sps_v.Evidence.Batch.{commit_all-cases}

module _ {Row : Type 0} (table : EvidenceTable Row) (id : String) where
  -- A row of the case.
  abbrev IsOwn : Row → Type 0
  IsOwn r = table.case_of r ≡ id

  -- The records are of the case, and no other case has a row under the identifier of one.
  pub record IsOwnBatch (records : List Row) (db : Database) : Type 0 where
    pub own : All IsOwn records
    pub apart :
        All (λ x. (row : Row) → get_evidence table (table.key x) db ≡ some row → IsOwn row) records

  Exists-filter :
      (p : Row → Bool) (rows : List Row)
      → ((r : Row) → p r ≡ true → IsOwn r)
      → filter p rows ≢ []
      → Exists IsOwn rows
  unfolding filter
  Exists-filter p [] h ne = absurd (ne refl)
  Exists-filter p (x ∷ xs) h ne = elim (Bool-cases (p x)) [
    | inl here ↦ inl (h x here)
    | inr past ↦ inr (Exists-filter p xs h (λ e. ne (rw past e)))
  ]

  Exists-append : (xs ys : List Row) → (Exists IsOwn xs ⊎ Exists IsOwn ys) → Exists IsOwn (xs ++ ys)
  Exists-append [] ys (inl h) = absurd h
  Exists-append [] ys (inr h) = h
  Exists-append (x ∷ xs) ys (inl (inl here)) = inl here
  Exists-append (x ∷ xs) ys (inl (inr there)) = inr (Exists-append xs ys (inl there))
  Exists-append (x ∷ xs) ys (inr h) = inr (Exists-append xs ys (inr h))

  Exists-find-IsOwn :
      (p : Row → Bool) (rows : List Row) (a : Row)
      → find p rows ≡ some a
      → IsOwn a
      → Exists IsOwn rows
  unfolding find
  Exists-find-IsOwn p [] a e h = absurd (cc)
  Exists-find-IsOwn p (x ∷ xs) a e h = elim (Bool-cases (p x)) [
    | inl here ↦ inl (subst IsOwn (ground arith) h)
    | inr past ↦ inr (Exists-find-IsOwn p xs a (ground arith) h)
  ]

  -- The first record of the batch, or the old row that it found, is a row of the case.
  staged-IsOwn :
      (r : Row) (rs : List Row) (db : Database)
      → IsOwnBatch (r ∷ rs) db
      → Exists IsOwn (table.rows db ++ staged table (r ∷ rs) db)
  unfolding staged filter get_evidence
  staged-IsOwn r rs db h = elim (Option-cases (get_evidence table (table.key r) db)) [
    | inl missing ↦
        Exists-append (table.rows db) (staged table (r ∷ rs) db) (inr (rw missing (inl h.own.0)))
    | inr (row, found) ↦ Exists-append (table.rows db) (staged table (r ∷ rs) db) (
        inl (
          Exists-find-IsOwn (λ x. table.key x == table.key r) (table.rows db) row found
            (h.apart.0 row found)))
  ]

  -- What holds of the outcome of an activity.
  abbrev HasOwn : Result (List String) × Database → Type 0
  HasOwn (err e, db) = Unit
  HasOwn (ok ids, db) = Exists IsOwn (table.rows db)

  reread_own :
      (xs : List Row) (db : Database)
      → (xs ≢ [] → Exists IsOwn (table.rows db))
      → HasOwn (reread_result table (map table.key xs), db)
  reread_own [] db h = tt
  reread_own (x ∷ xs) db h = h (λ e. cc)

  commit_all-HasOwn :
      (r : Row) (rs : List Row) (db : Database)
      → IsOwnBatch (r ∷ rs) db
      → HasOwn (commit_all table (Reread.of_case id) (r ∷ rs) (staged table (r ∷ rs) db) db)
  unfolding reread
  commit_all-HasOwn r rs db h =
      let new = staged table (r ∷ rs) db in
      let p : Row → Bool = λ x. table.case_of x == id in
      elim (commit_all-cases table (Reread.of_case id) (r ∷ rs) new db) [
        | inl (v, q) ↦ subst HasOwn (sym q) (
            reread_own (filter p (table.rows db)) db
              (Exists-filter p (table.rows db) (λ x e. (eq_iff (table.case_of x) id).0 e)))
        | inr (v, q) ↦ subst HasOwn (sym q) (
            subst (Exists IsOwn) (sym (table.rows-set_rows (table.rows db ++ new) db))
              (staged-IsOwn r rs db h))
      ]

  persist_all-HasOwn :
      (records : List Row) (db db' : Database) (ids : List String)
      → IsOwnBatch records db
      → persist_all table (Reread.of_case id) (λ d. d) records db ≡ (ok ids, db')
      → Exists IsOwn (table.rows db')
  unfolding persist_all
  persist_all-HasOwn [] db db' ids h e = absurd (cc)
  persist_all-HasOwn (r ∷ rs) db db' ids h e = subst HasOwn e (commit_all-HasOwn r rs db h)

module _ {Row : Type 0} (table : EvidenceTable Row) where
  -- No activity of this kind touches the cases.
  pub cases-persist_all :
      (how : Reread) (others : Database → Database) (records : List Row) (db : Database)
      → ((persist_all table how others records db).1.permit_cases ≡ db.permit_cases)
        ⊎ ((persist_all table how others records db).1.permit_cases ≡ (others db).permit_cases)
  unfolding persist_all
  cases-persist_all how others [] db = inl refl
  cases-persist_all how others (r ∷ rs) db =
      let new = staged table (r ∷ rs) db in
      elim (commit_all-cases table how (r ∷ rs) new (others db)) [
        | inl (v, q) ↦ inr (rw q refl)
        | inr (v, q) ↦ inr (rw q (table.cases-set_rows (table.rows (others db) ++ new) (others db)))
      ]

  cases-persist_alone :
      (how : Reread) (records : List Row) (db : Database)
      → (persist_all table how (λ d. d) records db).1.permit_cases ≡ db.permit_cases
  cases-persist_alone how records db = elim (cases-persist_all how (λ d. d) records db) [
    | inl same ↦ same
    | inr same ↦ same
  ]

-- If the activity that stores jurisdictions, alone, returns for a case at INTAKE_COMPLETE, where its
-- records are of the case and no other case has a row under the identifier of one, then a request to
-- move the case on to JURISDICTION_COMPLETE is decided as applied.
pub persist_jurisdiction_resolutions-evaluate :
    (registry : Registry) (records : List JurisdictionResolution) (made : PersistEvidenceRequest)
    (req : StateTransitionRequest) (case : PermitCase) (db db' : Database) (ids : List String)
    → made.case_id ≡ req.case_id
    → req.from_state ≡ intake_complete
    → req.to_state ≡ jurisdiction_complete
    → get_case req db ≡ some case
    → case.case_state ≡ intake_complete
    → IsOwnBatch jurisdiction_resolutions made.case_id records db
    → persist_jurisdiction_resolutions (λ d. d) records made db ≡ (ok ids, db')
    → evaluate registry req db' ≡ ok (apply_at (requested_at req))
unfolding get_case
persist_jurisdiction_resolutions-evaluate registry records made req case db db' ids same from to
      found at own e =
    let found' : get_case req db' ≡ some case =
      ap (λ cases. find (λ c. c.case_id == req.case_id) cases)
        (ap (λ d. d.1.permit_cases) (sym e)
          ∙ cases-persist_alone jurisdiction_resolutions (Reread.of_case made.case_id) records db)
      ∙ found in
    let rows = persist_all-HasOwn jurisdiction_resolutions made.case_id records db db' ids own e in
    evaluate_complete registry req db' case found' (at ∙ sym from) (
      Branch.jurisdiction,
      rw (from, to) Edge.jurisdiction,
      subst
          (λ id.
            Exists (λ (r : JurisdictionResolution). r.case_id ≡ id) db'.jurisdiction_resolutions)
          same rows,
    )
