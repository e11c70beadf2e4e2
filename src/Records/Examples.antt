-- ===== src/Records/Examples.antt =====
-- A correction task on a submission.
use sps_v.Common.{
  ◌≡◌, refl, true, none, some, [], ◌∷◌, ◌==◌, string_eq, is_some, find, ok, err, Error,
}
use sps_v.Contracts.Enums.{SubmissionAdapterOutcome}
use sps_v.Db.{Database, SubmissionAttempt, CorrectionTask}
use sps_v.Db.Samples.{empty, sample_case}
use sps_v.Records.Once.{persist-persist}
use sps_v.Records.Linked.{KeepsAttempts}
use sps_v.Records.{
  PersistCorrectionTaskRequest, correction_tasks, correction_task, get_attempt, get_row, violates,
  commit, persist, persist_correction_task,
}

abbrev sample_attempt : SubmissionAttempt
sample_attempt = record {
  submission_attempt_id = "attempt-1";
  case_id = "case-1";
  package_id = "package-1";
  manifest_artifact_id = "manifest-1";
  target_portal_family = "CITY_PORTAL_FAMILY_A";
  portal_support_level = "FULLY_SUPPORTED";
  request_id = "request-1";
  idempotency_key = "submit/case-1/attempt-1";
  attempt_number = 1;
  status = "SUBMITTED";
  outcome = some SubmissionAdapterOutcome.success;
  external_tracking_id = some "CITY_PORTAL_FAMILY_A-attempt-1";
  receipt_artifact_id = some "receipt-1";
  submitted_at = some 5;
  failure_class = none;
}

abbrev sample_db : Database
sample_db = record empty {
  permit_cases = sample_case ∷ [];
  submission_attempts = sample_attempt ∷ [];
}

abbrev sample_request : PersistCorrectionTaskRequest
sample_request = record {
  correction_task_id = "task-1";
  case_id = "case-1";
  submission_attempt_id = "attempt-1";
  status = "PENDING";
  summary = some "missing plan";
  requested_at = none;
  due_at = none;
}

abbrev stay : Database → Database
stay db = db

abbrev sample_task : CorrectionTask
sample_task = correction_task sample_request

abbrev other_task : CorrectionTask
other_task = record sample_task { summary = none }

abbrev stored_db : Database
stored_db = record sample_db { correction_tasks = sample_task ∷ [] }

runs : persist_correction_task stay sample_request sample_db ≡ (ok "task-1", stored_db)
unfolding persist commit violates get_row find
runs = refl

raises : persist_correction_task stay sample_request empty ≡ (err Error.lookup_error, empty)
unfolding persist get_row find
raises = refl

not_stored : get_row correction_tasks "task-1" sample_db ≡ none
unfolding get_row find
not_stored = refl

is_stored : get_row correction_tasks "task-1" stored_db ≡ some sample_task
unfolding get_row find
is_stored = refl

persist-persist_example :
    persist correction_tasks stay other_task stored_db ≡ (ok "task-1", stored_db)
persist-persist_example =
    persist-persist correction_tasks stay sample_task sample_db stored_db "task-1" runs stay
      other_task stored_db refl refl

attempts_stay : KeepsAttempts sample_db (stay sample_db)
attempts_stay id a h = h

attempt_found : get_attempt "attempt-1" sample_db ≡ some sample_attempt
unfolding find
attempt_found = refl

case_found : is_some (find (λ c. c.case_id == "case-1") sample_db.permit_cases) ≡ true
unfolding find
case_found = refl
