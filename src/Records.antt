-- ===== src/Records.antt =====
-- The four activities of src/sps/workflows/permit_case/activities_records.py, which store what an
-- authority reports on a submission. They differ in their row and table only: `persist` is their
-- common body, and a `RecordTable` is what each brings. Requests are those that validate.
pub mod Once
pub mod Linked
mod Examples
use mathlib.Core.List.{◌++◌ as ◌++ᴸ◌}
use sps_v.Common.{
  ℕ, String, Bool, true, false, not, ◌||◌, ◌≡◌, refl, Option, none, some, List, [], ◌∷◌, ◌==◌,
  string_eq, if◌then◌else◌, is_some, find, Result, ok, err, Error,
}
use sps_v.Common.Time.{Datetime, to_utc}
use sps_v.Db.{
  Database, PermitCase, SubmissionAttempt, CorrectionTask, ResubmissionPackage, ApprovalRecord,
  InspectionMilestone,
}

-- A table of records on submission attempts; writing it leaves the cases and the attempts alone.
pub record RecordTable (Row : Type 0) : Type 0 where
  pub rows : Database → List Row
  pub set_rows : List Row → Database → Database
  pub key : Row → String
  pub case_of : Row → String
  pub attempt_of : Row → String
  pub rows-set_rows : (xs : List Row) (db : Database) → rows (set_rows xs db) ≡ xs
  pub cases-set_rows :
      (xs : List Row) (db : Database) → (set_rows xs db).permit_cases ≡ db.permit_cases
  pub attempts-set_rows :
      (xs : List Row) (db : Database)
      → (set_rows xs db).submission_attempts ≡ db.submission_attempts

abbrev pub get_attempt : String → Database → Option SubmissionAttempt
get_attempt id db = find (λ a. a.submission_attempt_id == id) db.submission_attempts

abbrev pub has_case : String → Database → Bool
has_case id db = is_some (find (λ c. c.case_id == id) db.permit_cases)

module _ {Row : Type 0} (table : RecordTable Row) where
  unfoldable pub get_row : String → Database → Option Row
  get_row id db = find (λ r. table.key r == id) (table.rows db)

  -- `attempt.case_id == req.case_id`, where there is an attempt.
  abbrev is_attempt_of : String → Option SubmissionAttempt → Bool
  is_attempt_of case_id none = false
  is_attempt_of case_id (some a) = a.case_id == case_id

  -- The constraints that the commit checks: the primary key and the two foreign keys.
  unfoldable pub violates : Row → Database → Bool
  violates row db =
      is_some (get_row (table.key row) db)
      || (not (has_case (table.case_of row) db)
          || not (is_some (get_attempt (table.attempt_of row) db)))

  -- After an `IntegrityError`: a new session looks for the row that won.
  unfoldable pub reload : Row → Database → Result String × Database
  reload row db =
      if is_some (get_row (table.key row) db)
      then (ok (table.key row), db)
      else (err Error.runtime_error, db)

  unfoldable pub commit : Row → Database → Result String × Database
  commit row db =
      if violates row db
      then reload row db
      else (ok (table.key row), table.set_rows (table.rows db ++ᴸ row ∷ []) db)

  -- The activity; `others` is what other transactions commit between its reads and its commit.
  unfoldable pub persist : (Database → Database) → Row → Database → Result String × Database
  persist others row db =
      if is_some (get_row (table.key row) db)
      then (ok (table.key row), db)
      else if not (has_case (table.case_of row) db)
      then (err Error.lookup_error, db)
      else if not (is_attempt_of (table.case_of row) (get_attempt (table.attempt_of row) db))
      then (err Error.lookup_error, db)
      else commit row (others db)

-- An optional time, with UTC for a missing zone.
abbrev to_utc_if : Option Datetime → Option ℕ
to_utc_if none = none
to_utc_if (some t) = some (to_utc t)

pub record PersistCorrectionTaskRequest : Type 0 where
  pub correction_task_id : String
  pub case_id : String
  pub submission_attempt_id : String
  pub status : String
  pub summary : Option String
  pub requested_at : Option Datetime
  pub due_at : Option Datetime

pub record PersistResubmissionPackageRequest : Type 0 where
  pub resubmission_package_id : String
  pub case_id : String
  pub submission_attempt_id : String
  pub package_id : String
  pub package_version : String
  pub status : String
  pub submitted_at : Option Datetime

pub record PersistApprovalRecordRequest : Type 0 where
  pub approval_record_id : String
  pub case_id : String
  pub submission_attempt_id : String
  pub decision : String
  pub authority : Option String
  pub decided_at : Option Datetime

pub record PersistInspectionMilestoneRequest : Type 0 where
  pub inspection_milestone_id : String
  pub case_id : String
  pub submission_attempt_id : String
  pub milestone_type : String
  pub status : String
  pub scheduled_for : Option Datetime
  pub completed_at : Option Datetime

abbrev pub correction_tasks : RecordTable CorrectionTask
correction_tasks = record {
  rows = λ db. db.correction_tasks;
  set_rows = λ xs db. record db { correction_tasks = xs };
  key = λ r. r.correction_task_id;
  case_of = λ r. r.case_id;
  attempt_of = λ r. r.submission_attempt_id;
  rows-set_rows = λ xs db. refl;
  cases-set_rows = λ xs db. refl;
  attempts-set_rows = λ xs db. refl;
}

abbrev pub resubmission_packages : RecordTable ResubmissionPackage
resubmission_packages = record {
  rows = λ db. db.resubmission_packages;
  set_rows = λ xs db. record db { resubmission_packages = xs };
  key = λ r. r.resubmission_package_id;
  case_of = λ r. r.case_id;
  attempt_of = λ r. r.submission_attempt_id;
  rows-set_rows = λ xs db. refl;
  cases-set_rows = λ xs db. refl;
  attempts-set_rows = λ xs db. refl;
}

abbrev pub approval_records : RecordTable ApprovalRecord
approval_records = record {
  rows = λ db. db.approval_records;
  set_rows = λ xs db. record db { approval_records = xs };
  key = λ r. r.approval_record_id;
  case_of = λ r. r.case_id;
  attempt_of = λ r. r.submission_attempt_id;
  rows-set_rows = λ xs db. refl;
  cases-set_rows = λ xs db. refl;
  attempts-set_rows = λ xs db. refl;
}

abbrev pub inspection_milestones : RecordTable InspectionMilestone
inspection_milestones = record {
  rows = λ db. db.inspection_milestones;
  set_rows = λ xs db. record db { inspection_milestones = xs };
  key = λ r. r.inspection_milestone_id;
  case_of = λ r. r.case_id;
  attempt_of = λ r. r.submission_attempt_id;
  rows-set_rows = λ xs db. refl;
  cases-set_rows = λ xs db. refl;
  attempts-set_rows = λ xs db. refl;
}

abbrev pub correction_task : PersistCorrectionTaskRequest → CorrectionTask
correction_task req = record {
  correction_task_id = req.correction_task_id;
  case_id = req.case_id;
  submission_attempt_id = req.submission_attempt_id;
  status = req.status;
  summary = req.summary;
  requested_at = to_utc_if req.requested_at;
  due_at = to_utc_if req.due_at;
}

abbrev pub resubmission_package : PersistResubmissionPackageRequest → ResubmissionPackage
resubmission_package req = record {
  resubmission_package_id = req.resubmission_package_id;
  case_id = req.case_id;
  submission_attempt_id = req.submission_attempt_id;
  package_id = req.package_id;
  package_version = req.package_version;
  status = req.status;
  submitted_at = to_utc_if req.submitted_at;
}

abbrev pub approval_record : PersistApprovalRecordRequest → ApprovalRecord
approval_record req = record {
  approval_record_id = req.approval_record_id;
  case_id = req.case_id;
  submission_attempt_id = req.submission_attempt_id;
  decision = req.decision;
  authority = req.authority;
  decided_at = to_utc_if req.decided_at;
}

abbrev pub inspection_milestone : PersistInspectionMilestoneRequest → InspectionMilestone
inspection_milestone req = record {
  inspection_milestone_id = req.inspection_milestone_id;
  case_id = req.case_id;
  submission_attempt_id = req.submission_attempt_id;
  milestone_type = req.milestone_type;
  status = req.status;
  scheduled_for = to_utc_if req.scheduled_for;
  completed_at = to_utc_if req.completed_at;
}

abbrev pub Activity : Type 0 → Type 0
Activity Request = (Database → Database) → Request → Database → Result String × Database

abbrev pub persist_correction_task : Activity PersistCorrectionTaskRequest
persist_correction_task others req = persist correction_tasks others (correction_task req)

abbrev pub persist_resubmission_package : Activity PersistResubmissionPackageRequest
persist_resubmission_package others req =
    persist resubmission_packages others (resubmission_package req)

abbrev pub persist_approval_record : Activity PersistApprovalRecordRequest
persist_approval_record others req = persist approval_records others (approval_record req)

abbrev pub persist_inspection_milestone : Activity PersistInspectionMilestoneRequest
persist_inspection_milestone others req =
    persist inspection_milestones others (inspection_milestone req)
