-- ===== src/Cases/Starts.antt =====
-- How a case starts.
use sps_v.Common.{
  String, ◌≡◌, ◌≢◌, sym, subst, Bool, true, false, some, List, [], ◌∷◌, ◌==◌, string_eq, arith,
  Bool-cases, Option-cases, inl, inr, is_some, find-append_new, str_refl, eq_iff, ok, All,
}
use sps_v.Contracts.CaseState.{CaseState, review_pending}
use sps_v.Db.{Database, CaseTransitionLedger}
use sps_v.Guard.Apply.History.{History, IsExplained}
use sps_v.Cases.{
  PermitCaseStateSnapshot, find_case, new_case, ensure_permit_case_exists, fetch_permit_case_state,
}

ensure-created :
    (others : Database → Database) (id : String) (db db' : Database)
    → ensure_permit_case_exists others id db ≡ (ok true, db')
    → (find_case id db' ≡ some (new_case id))
      × (db'.case_transition_ledger ≡ (others db).case_transition_ledger)
unfolding ensure_permit_case_exists new_case
ensure-created others id db db' e = elim (Bool-cases (is_some (find_case id db))) [
  | inl there ↦ absurd (ground arith)
  | inr missing ↦ elim (Bool-cases (is_some (find_case id (others db)))) [
    | inl raced ↦ absurd (ground arith)
    | inr free ↦
        let found =
          find-append_new (λ c. c.case_id == id) (others db).permit_cases (new_case id)
            (ground arith) (str_refl id) in
        (ground (arith, found), ground arith)
  ]
]

History-unmentioned :
    (id : String) (s : CaseState) (rows : List CaseTransitionLedger)
    → All (λ (row : CaseTransitionLedger). row.case_id ≢ id) rows
    → History id s rows s
History-unmentioned id s [] h = History.here
History-unmentioned id s (row ∷ rows) (ne, h) =
    History.skip (ground (arith, eq_iff row.case_id id)) (History-unmentioned id s rows h)

-- A case that is created, and that no ledger row mentions, starts at REVIEW_PENDING with a history
-- that the ledger explains.
pub ensure_permit_case_exists-IsExplained :
    (others : Database → Database) (id : String) (db db' : Database)
    → ensure_permit_case_exists others id db ≡ (ok true, db')
    → All (λ (row : CaseTransitionLedger). row.case_id ≢ id) (others db).case_transition_ledger
    → IsExplained id review_pending db'
unfolding new_case
ensure_permit_case_exists-IsExplained others id db db' e unmentioned =
    let (found, same) = ensure-created others id db db' e in
    record {
      case = new_case id;
      found = found;
      history =
          subst (λ rows. History id review_pending rows review_pending) (sym same)
            (History-unmentioned id review_pending (others db).case_transition_ledger unmentioned);
    }

-- Once the activity has returned, the case can be read, and the activity, called again with whatever
-- beside it, returns that it was there and writes nothing.
pub ensure_permit_case_exists-ensure_permit_case_exists :
    (others others' : Database → Database) (id : String) (db db' : Database) (b : Bool)
    → ensure_permit_case_exists others id db ≡ (ok b, db')
    → ((snapshot : PermitCaseStateSnapshot) × (fetch_permit_case_state id db' ≡ ok snapshot))
      × (ensure_permit_case_exists others' id db' ≡ (ok false, db'))
unfolding ensure_permit_case_exists fetch_permit_case_state
ensure_permit_case_exists-ensure_permit_case_exists others others' id db db' b e =
    elim (Option-cases (find_case id db')) [
      | inr (case, found) ↦ (
        (
          record {
            case_id = case.case_id;
            case_state = case.case_state;
            project_id = case.project_id;
          },
          ground arith,
        ),
        ground arith,
      )
      | inl missing ↦ elim (Bool-cases (is_some (find_case id db))) [
        | inl there ↦ absurd (ground arith)
        | inr gone ↦ elim (Bool-cases (is_some (find_case id (others db)))) [
          | inl raced ↦ absurd (ground arith)
          | inr free ↦
              let made : ensure_permit_case_exists others id db ≡ (ok true, db') = ground arith in
              absurd (cc ((ensure-created others id db db' made).0, missing))
        ]
      ]
    ]
