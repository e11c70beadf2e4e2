-- ===== src/Submission/Examples.antt =====
-- An attempt to submit the package of a case, to a portal and by hand.
use sps_v.Common.{
  ◌≡◌, refl, ap, false, none, some, [], ◌∷◌, find, filter, latest, update, ok, err, Error,
}
use sps_v.Contracts.CaseState.{document_complete, submitted}
use sps_v.Contracts.Samples.{approval_request}
use sps_v.Contracts.Transition.{StateTransitionRequest}
use sps_v.Db.{Database, PermitCase, SubmissionPackage}
use sps_v.Db.Samples.{empty, sample_case}
use sps_v.Guard.Apply.{evaluate, get_case}
use sps_v.Guard.Gates.{apply_at}
use sps_v.Records.{get_attempt}
use sps_v.Submission.{
  SubmissionAdapterRequest, SubmissionAdapterResult, Delivery, fallbacks_of, attempt_conflicts,
  pending_attempt, manual_attempt, manual_result, store_manual, submitted_result, store_submitted,
  fallback_conflicts, fall_back, submit, deliver, transact, mark_failed, finish, conclude,
  raced_attempt, recover, fallback_required, deterministic_submission_adapter,
}
use sps_v.Submission.Retry.{HasLevel, adapter-adapter}
use sps_v.Submission.Distinct.{IsDistinct, adapter-IsDistinct}
use sps_v.Submission.Gates.{CaseIsProven, submission_target, adapter-evaluate}

abbrev ready_case : PermitCase
ready_case = record sample_case { case_state = document_complete }

abbrev sample_package : SubmissionPackage
sample_package = record {
  package_id = "PKG-1";
  case_id = "case-1";
  package_version = "1.0.0";
  manifest_artifact_id = "ART-1";
  manifest_sha256_digest = "digest-1";
  request_id = some "request-0";
  created_at = 5;
}

abbrev ready_db : Database
ready_db = record empty {
  permit_cases = ready_case ∷ [];
  submission_packages = sample_package ∷ [];
}

abbrev sample_request : SubmissionAdapterRequest
sample_request = record {
  request_id = "request-1";
  submission_attempt_id = "attempt-1";
  case_id = "case-1";
  package_id = "PKG-1";
  manifest_id = "MANIFEST-UNKNOWN";
  target_portal_family = "CITY_PORTAL_FAMILY_A";
  idempotency_key = "submit/case-1/attempt-1";
  attempt_number = 1;
  correlation_id = "flow";
}

abbrev delivery : Delivery
delivery = record { plan = none; receipt = some "ART-9"; submitted_at = 6; created_at = 6 }

abbrev lost : Delivery
lost = record delivery { receipt = none }

abbrev stay : Database → Database
stay db = db

abbrev sample_result : SubmissionAdapterResult
sample_result = submitted_result delivery sample_request "ART-9" ready_case

abbrev submitted_db : Database
submitted_db = store_submitted delivery sample_request ready_db ready_case sample_package "ART-9"

submits :
    deterministic_submission_adapter delivery sample_request stay ready_db
    ≡ (ok sample_result, submitted_db)
unfolding deterministic_submission_adapter conclude transact deliver submit attempt_conflicts
    fallback_required find
submits = refl

-- The object store takes no receipt: nothing is kept.
loses :
    deterministic_submission_adapter lost sample_request stay ready_db
    ≡ (err Error.storage_error, ready_db)
unfolding deterministic_submission_adapter conclude finish mark_failed transact deliver
    attempt_conflicts fallback_required find update
loses = refl

-- A portal that is not supported.
abbrev manual_case : PermitCase
manual_case = record ready_case { portal_support_level = "UNSUPPORTED" }

abbrev manual_db : Database
manual_db = record ready_db { permit_cases = manual_case ∷ [] }

falls_back : deterministic_submission_adapter delivery sample_request stay manual_db ≡ (
  ok (manual_result delivery sample_request manual_case),
  store_manual delivery sample_request manual_db manual_case sample_package,
)
unfolding deterministic_submission_adapter conclude transact deliver fall_back fallback_conflicts
    attempt_conflicts fallback_required find
falls_back = refl

-- A second attempt for the same package, by hand again, is refused by the constraint on fallback
-- packages, and there is nothing to read back.
abbrev second_request : SubmissionAdapterRequest
second_request = record sample_request {
  request_id = "request-2";
  submission_attempt_id = "attempt-2";
  idempotency_key = "submit/case-1/attempt-2";
  attempt_number = 2;
}

abbrev after_manual : Database
after_manual = store_manual delivery sample_request manual_db manual_case sample_package

refused :
    deterministic_submission_adapter delivery second_request stay after_manual
    ≡ (err Error.runtime_error, after_manual)
unfolding deterministic_submission_adapter conclude finish recover raced_attempt mark_failed
    transact deliver fall_back fallback_conflicts attempt_conflicts fallback_required store_manual
    manual_attempt pending_attempt find filter update
refused = refl

unmade : get_attempt "attempt-1" ready_db ≡ none
unfolding find
unmade = refl

free : attempt_conflicts sample_request ready_db ≡ false
unfolding attempt_conflicts find
free = refl

no_fallbacks : fallbacks_of "attempt-1" ready_db ≡ []
unfolding filter
no_fallbacks = refl

level : HasLevel sample_request ready_db
unfolding find
level case e q =
    let same : "FULLY_SUPPORTED" ≡ case.portal_support_level =
      ap (λ o. elim o [ none ↦ "" | some c ↦ c.portal_support_level ]) e in
    absurd (cc (same, q))

adapter-adapter_example :
    deterministic_submission_adapter lost sample_request stay submitted_db
    ≡ (ok sample_result, submitted_db)
adapter-adapter_example =
    adapter-adapter delivery lost sample_request stay stay ready_db submitted_db submitted_db
      sample_result unmade free no_fallbacks level submits refl refl

distinct : IsDistinct ready_db
distinct = record { ids = tt; requests = tt; keys = tt }

adapter-IsDistinct_example :
    IsDistinct (deterministic_submission_adapter delivery sample_request stay ready_db).1
adapter-IsDistinct_example =
    adapter-IsDistinct delivery sample_request stay ready_db distinct distinct

abbrev submit_request : StateTransitionRequest
submit_request = record approval_request { from_state = document_complete; to_state = submitted }

at_ready : get_case submit_request ready_db ≡ some ready_case
unfolding get_case find
at_ready = refl

proven : CaseIsProven [] submit_request ready_case ready_db
unfolding filter latest
proven = tt

target : submission_target sample_result.outcome ≡ some submitted
unfolding submission_target submitted_result
target = refl

adapter-evaluate_example : evaluate [] submit_request submitted_db ≡ ok (apply_at 7)
adapter-evaluate_example =
    adapter-evaluate [] submit_request ready_case delivery sample_request ready_db refl refl
      at_ready refl proven sample_result submitted_db unmade free submits target
