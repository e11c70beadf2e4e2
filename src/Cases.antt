-- ===== src/Cases.antt =====
-- The activities of src/sps/workflows/permit_case/activities_impl.py that create a case, read its
-- state, and validate a reviewer's confirmation.
pub mod Starts
pub mod Moves
mod Examples
use Prim.Native.String.{◌++◌}
use mathlib.Core.List.{◌++◌ as ◌++ᴸ◌}
use sps_v.Common.{
  String, Bool, true, false, Option, none, some, List, [], ◌∷◌, ◌==◌, string_eq, if◌then◌else◌,
  is_some, find, Result, ok, err, Error,
}
use sps_v.Contracts.CaseState.{CaseState, review_pending}
use sps_v.Db.{Database, PermitCase}

pub record PermitCaseStateSnapshot : Type 0 where
  pub case_id : String
  pub case_state : CaseState
  pub project_id : String

abbrev pub find_case : String → Database → Option PermitCase
find_case case_id db = find (λ c. c.case_id == case_id) db.permit_cases

-- The seed of a new case.
unfoldable pub new_case : String → PermitCase
new_case case_id = record {
  case_id = case_id;
  tenant_id = "tenant-local";
  project_id = "project-" ++ case_id;
  case_state = review_pending;
  review_state = "PENDING";
  submission_mode = "AUTOMATED";
  portal_support_level = "FULLY_SUPPORTED";
  current_package_id = none;
  current_release_profile = "default";
  legal_hold = false;
  closure_reason = none;
}

-- `others` is what other transactions commit between the read and the commit; a case that one of
-- them has created makes the commit an `IntegrityError`, which the activity lets through.
unfoldable pub ensure_permit_case_exists :
    (Database → Database) → String → Database → Result Bool × Database
ensure_permit_case_exists others case_id db =
    if is_some (find_case case_id db)
    then (ok false, db)
    else let later = others db in
      if is_some (find_case case_id later)
      then (err Error.integrity_error, later)
      else (ok true, record later { permit_cases = later.permit_cases ++ᴸ new_case case_id ∷ [] })

unfoldable pub fetch_permit_case_state : String → Database → Result PermitCaseStateSnapshot
fetch_permit_case_state case_id db = elim (find_case case_id db) [
  | none ↦ err Error.lookup_error
  | some case ↦ ok (record {
    case_id = case.case_id;
    case_state = case.case_state;
    project_id = case.project_id;
  })
]

pub validate_reviewer_confirmation : String → Database → Result String
validate_reviewer_confirmation id db =
    if is_some (find (λ r. r.decision_id == id) db.review_decisions)
    then ok id
    else err Error.lookup_error
