-- ===== src/Submission.antt =====
-- `deterministic_submission_adapter` of src/sps/workflows/permit_case/activities_impl.py: one attempt
-- to submit a package to a portal, or to prepare its submission by hand.
mod Rows
pub mod Retry
pub mod Distinct
pub mod Gates
mod Examples
unfoldable pub use Rows.*
use Prim.Native.String.{◌++◌}
use mathlib.Core.List.{◌++◌ as ◌++ᴸ◌}
use sps_v.Common.{
  String, Bool, true, false, not, ◌&&◌, ◌||◌, Option, none, some, List, [], ◌∷◌, ◌==◌, string_eq,
  if◌then◌else◌, is_some, find, filter, update, Result, ok, err, Error, one_or_none,
}
use sps_v.Contracts.Enums.{SubmissionAdapterOutcome}
use sps_v.Db.{Database, PermitCase, SubmissionPackage, SubmissionAttempt, EvidenceArtifact}
use sps_v.Cases.{find_case}
use sps_v.Packages.{get_package}
use sps_v.Records.{get_attempt}

module _ (req : SubmissionAdapterRequest) where
  -- An exception is recorded on the attempt, unless that is submitted, and raised again.
  pub mark_failed : Database → Database
  mark_failed db = record db {
    submission_attempts =
        update
          (λ a.
            a.submission_attempt_id == req.submission_attempt_id && not (a.status == "SUBMITTED"))
          (λ a. record a {
            status = "FAILED";
            outcome = some SubmissionAdapterOutcome.failed;
            failure_class = some "ADAPTER_ERROR";
          })
          db.submission_attempts;
  }

  pub finish : Database → Result SubmissionAdapterResult → Result SubmissionAdapterResult × Database
  finish db (ok r) = (ok r, db)
  finish db (err e) = (err e, mark_failed db)

  -- The attempt with the request's identifier or its idempotency key.
  pub raced_attempt : Database → Result (Option SubmissionAttempt)
  raced_attempt db = one_or_none (
      filter (λ a. a.request_id == req.request_id || a.idempotency_key == req.idempotency_key)
        db.submission_attempts)

  pub recover : Database → Result SubmissionAdapterResult
  recover db = elim (raced_attempt db) [
    | err e ↦ err e
    | ok raced ↦ elim raced [ none ↦ err Error.runtime_error | some a ↦ load_existing_result db a ]
  ]

  -- What follows the transaction on `db`.
  pub conclude :
      Database
      → Result (SubmissionAdapterResult × Database)
      → Result SubmissionAdapterResult × Database
  conclude db (ok (r, db')) = (ok r, db')
  conclude db (err Error.integrity_error) = finish db (recover db)
  conclude db (err e) = finish db (err e)

  -- The rows of an attempt that falls back to a submission by hand.
  pub manual_attempt : PermitCase → SubmissionPackage → SubmissionAttempt
  unfolding pending_attempt
  manual_attempt case pack = record (pending_attempt req case pack) {
    status = "MANUAL_FALLBACK";
    outcome = some SubmissionAdapterOutcome.unsupported_workflow;
  }

  pub fallback_conflicts : PermitCase → SubmissionPackage → Database → Bool
  fallback_conflicts case pack db = is_some (
      find
        (λ m.
          m.manual_fallback_package_id == "MFP-" ++ req.submission_attempt_id
          || (m.case_id == req.case_id
              && (m.package_id == pack.package_id && m.package_version == pack.package_version)))
        db.manual_fallback_packages)

  pub external_tracking_id : String
  external_tracking_id = req.target_portal_family ++ "-" ++ req.submission_attempt_id

  pub receipt_row : String → EvidenceArtifact
  receipt_row receipt = record {
    artifact_id = receipt;
    artifact_class = "RECEIPT";
    linked_case_id = some req.case_id;
    linked_object_id = some req.submission_attempt_id;
    retention_class = "CASE_CORE_7Y";
    expires_at = none;
    legal_hold_flag = false;
  }

module _ (delivery : Delivery) (req : SubmissionAdapterRequest) where
  pub manual_result : PermitCase → SubmissionAdapterResult
  manual_result case = record {
    submission_attempt_id = req.submission_attempt_id;
    status = "MANUAL_FALLBACK";
    outcome = SubmissionAdapterOutcome.unsupported_workflow;
    external_tracking_id = none;
    receipt_artifact_id = none;
    submitted_at = none;
    manual_fallback_package_id = some ("MFP-" ++ req.submission_attempt_id);
    portal_support_level = some (or_else case.portal_support_level "UNKNOWN");
    failure_class = none;
  }

  pub store_manual : Database → PermitCase → SubmissionPackage → Database
  unfolding manual_attempt fallback_row
  store_manual db case pack = record db {
    submission_attempts = db.submission_attempts ++ᴸ manual_attempt req case pack ∷ [];
    manual_fallback_packages =
        db.manual_fallback_packages ++ᴸ fallback_row delivery req db case pack ∷ [];
  }

  pub fall_back :
      Database → PermitCase → SubmissionPackage → Result (SubmissionAdapterResult × Database)
  fall_back db case pack =
      if fallback_conflicts req case pack db
      then err Error.integrity_error
      else ok (manual_result case, store_manual db case pack)

  -- The row of an attempt that the portal has received.
  pub submitted_attempt : String → PermitCase → SubmissionPackage → SubmissionAttempt
  unfolding pending_attempt external_tracking_id
  submitted_attempt receipt case pack = record (pending_attempt req case pack) {
    status = "SUBMITTED";
    outcome = some SubmissionAdapterOutcome.success;
    external_tracking_id = some (external_tracking_id req);
    receipt_artifact_id = some receipt;
    submitted_at = some delivery.submitted_at;
  }

  pub submitted_result : String → PermitCase → SubmissionAdapterResult
  unfolding external_tracking_id
  submitted_result receipt case = record {
    submission_attempt_id = req.submission_attempt_id;
    status = "SUBMITTED";
    outcome = SubmissionAdapterOutcome.success;
    external_tracking_id = some (external_tracking_id req);
    receipt_artifact_id = some receipt;
    submitted_at = some delivery.submitted_at;
    manual_fallback_package_id = none;
    portal_support_level = some (or_else case.portal_support_level "UNKNOWN");
    failure_class = none;
  }

  pub store_submitted : Database → PermitCase → SubmissionPackage → String → Database
  unfolding submitted_attempt receipt_row
  store_submitted db case pack receipt = record db {
    submission_attempts = db.submission_attempts ++ᴸ submitted_attempt receipt case pack ∷ [];
    evidence_artifacts = db.evidence_artifacts ++ᴸ receipt_row req receipt ∷ [];
  }

  pub submit :
      Database
      → PermitCase
      → SubmissionPackage
      → String
      → Result (SubmissionAdapterResult × Database)
  submit db case pack receipt =
      if is_some (find (λ e. e.artifact_id == receipt) db.evidence_artifacts)
      then err Error.integrity_error
      else ok (submitted_result receipt case, store_submitted db case pack receipt)

  -- From the flush of the pending attempt to the commit.
  pub deliver :
      Database → PermitCase → SubmissionPackage → Result (SubmissionAdapterResult × Database)
  deliver db case pack =
      if attempt_conflicts req db
      then err Error.integrity_error
      else if fallback_required (or_else case.portal_support_level "UNKNOWN")
      then fall_back db case pack
      else elim delivery.receipt [
        | none ↦ err Error.storage_error
        | some receipt ↦ submit db case pack receipt
      ]

  -- From the row lock on the case on; the lock holds other attempts for the case off.
  pub transact : Database → Result (SubmissionAdapterResult × Database)
  transact db = elim (find_case req.case_id db) [
    | none ↦ err Error.lookup_error
    | some case ↦ elim (get_package req.package_id db) [
      | none ↦ err Error.lookup_error
      | some pack ↦ deliver db case pack
    ]
  ]

  -- The activity; `others` is what other transactions commit between its lookup of the attempt and
  -- its lock on the case.
  pub deterministic_submission_adapter :
      (Database → Database) → Database → Result SubmissionAdapterResult × Database
  deterministic_submission_adapter others db = elim (get_attempt req.submission_attempt_id db) [
    | some a ↦ finish req db (load_existing_result db a)
    | none ↦ conclude req (others db) (transact (others db))
  ]
