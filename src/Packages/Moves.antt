-- ===== src/Packages/Moves.antt =====
-- What the activity does to the states of the cases.
use sps_v.Common.{
  String, ◌≡◌, refl, sym, ◌∙◌, ap, subst, false, none, some, ◌==◌, string_eq, arith, Bool-cases,
  inl, inr, eq_iff, Result,
}
use sps_v.Contracts.CaseState.{CaseState, state_beq, state_beq_iff, state_eq, incentives_complete}
use sps_v.Db.{Database, PermitCase}
use sps_v.Guard.Branch.{Branch}
use sps_v.Guard.Spec.{Edge}
use sps_v.Cases.{find_case}
use sps_v.Diagram.{
  stay, Leads, Leads-same, Leads-trans, Leads-kept, Leads-moved, state_of, state_of-find,
  state_of-some, state_of_found, find-update_own, find-update_other,
}
use sps_v.Packages.{
  PersistSubmissionPackageRequest, RegisteredPackage, point_to_package, stores,
  persist_submission_package,
}
use sps_v.Packages.Once.{old, raced, stored, store-Stores, persist-cases}

module _ (built : RegisteredPackage) (req : PersistSubmissionPackageRequest) where
  keeps_id :
      (seen : CaseState) (c : PermitCase) → (point_to_package built req seen c).case_id ≡ c.case_id
  unfolding point_to_package
  keeps_id seen c = refl

  pub find_case-stores :
      (seen : CaseState) (db : Database)
      → find_case req.case_id (stores built req seen db) ≡ elim (find_case req.case_id db) [
        | none ↦ none
        | some c ↦ some (point_to_package built req seen c)
      ]
  unfolding stores
  find_case-stores seen db =
      find-update_own req.case_id (point_to_package built req seen) (keeps_id seen) db.permit_cases

  pub find_case-stores_other :
      (id : String) (seen : CaseState) (db : Database)
      → (id == req.case_id) ≡ false
      → find_case id (stores built req seen db) ≡ find_case id db
  unfolding stores
  find_case-stores_other id seen db ne =
      find-update_other req.case_id (point_to_package built req seen) (keeps_id seen) id
        db.permit_cases ne

  -- The case has not moved since it was read.
  stores-Leads_own :
      (seen : CaseState) (case : PermitCase) (db : Database)
      → find_case req.case_id db ≡ some case
      → case.case_state ≡ seen
      → Leads req.case_id db (stores built req seen db)
  unfolding point_to_package
  stores-Leads_own seen case db found same =
      let db' = stores built req seen db in
      let case' = point_to_package built req seen case in
      let after : find_case req.case_id db' ≡ some case' = find_case-stores seen db ∙ rw found in
      elim (Bool-cases (state_beq seen incentives_complete)) [
        | inr other ↦ Leads-kept req.case_id db db' case case' found after (ground arith)
        | inl at ↦
            let from : case.case_state ≡ incentives_complete =
              same ∙ (state_beq_iff seen incentives_complete).0 at in
            Leads-moved req.case_id db db' {b = Branch.document} case case' found after
              (rw (from, at) Edge.document)
      ]

  pub stores-Leads :
      (id : String) (seen : CaseState) (db : Database)
      → state_of req.case_id db ≡ some seen
      → Leads id db (stores built req seen db)
  stores-Leads id seen db at = elim (Bool-cases (id == req.case_id)) [
    | inr other ↦
        Leads-same id db (stores built req seen db)
          (state_of-find id db (stores built req seen db) (find_case-stores_other id seen db other))
    | inl own ↦
        let (case, found, same) = state_of-some req.case_id db seen at in
        subst (λ i. Leads i db (stores built req seen db)) (sym ((eq_iff id req.case_id).0 own))
          (stores-Leads_own seen case db found same)
  ]

abbrev out_db : Result String × Database → Database
out_db (r, db) = db

-- The activity moves a case along the diagram, if others do so and let the states be between its read
-- of the case and its commit.
pub persist_submission_package-Leads :
    (others racing : Database → Database) (built : RegisteredPackage)
    (req : PersistSubmissionPackageRequest) (id : String) (db : Database)
    → Leads id db (others db)
    → ((i : String) → state_of i (racing (others db)) ≡ state_of i (others db))
    → Leads id db (persist_submission_package others racing built req db).1
persist_submission_package-Leads others racing built req id db lead calm =
    let now = others db in
    let at : Database → Type 0 = Leads id db in
    elim (persist-cases others racing built req db) [
      | inl q ↦ subst at (sym (ap out_db q)) stay
      | inr (inl (p, there, q)) ↦ subst at (sym (ap out_db q)) stay
      | inr (inr (new, q)) ↦ elim (store-Stores built req racing now) [
        | old there s ↦ subst at (sym (ap out_db (q ∙ s))) lead
        | raced s ↦ subst at (sym (ap out_db (q ∙ s))) lead
        | stored case found s ↦ subst at (sym (ap out_db (q ∙ s))) (
            Leads-trans id db now (stores built req case.case_state (racing now)) lead (
              Leads-trans id now (racing now) (stores built req case.case_state (racing now))
                (Leads-same id now (racing now) (calm id))
                (stores-Leads built req id case.case_state (racing now)
                  (calm req.case_id ∙ state_of_found req.case_id now case found))))
      ]
    ]
