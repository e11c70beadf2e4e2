-- ===== src/Db/Submission.antt =====
-- src/sps/db/models_submission.py, less the JSONB columns and those that no modelled code uses; of a
-- package's `provenance`, the `request_id`.
use sps_v.Common.{ℕ, String, Bool, Option, List}
use sps_v.Contracts.Enums.{SubmissionAdapterOutcome, ExternalStatusClass, ExternalStatusConfidence}

pub record SubmissionPackage : Type 0 where
  pub package_id : String
  pub case_id : String
  pub package_version : String
  pub manifest_artifact_id : String
  pub manifest_sha256_digest : String
  pub request_id : Option String
  pub created_at : ℕ

pub record DocumentArtifact : Type 0 where
  pub document_artifact_id : String
  pub package_id : String
  pub document_id : String
  pub document_type : String
  pub template_name : String
  pub evidence_artifact_id : String
  pub sha256_digest : String

pub record SubmissionAttempt : Type 0 where
  pub submission_attempt_id : String
  pub case_id : String
  pub package_id : String
  pub manifest_artifact_id : String
  pub target_portal_family : String
  pub portal_support_level : String
  pub request_id : String
  pub idempotency_key : String
  pub attempt_number : ℕ
  pub status : String
  pub outcome : Option SubmissionAdapterOutcome
  pub external_tracking_id : Option String
  pub receipt_artifact_id : Option String
  pub submitted_at : Option ℕ
  pub failure_class : Option String

pub record ExternalStatusEvent : Type 0 where
  pub event_id : String
  pub case_id : String
  pub submission_attempt_id : String
  pub raw_status : String
  pub normalized_status : ExternalStatusClass
  pub confidence : ExternalStatusConfidence
  pub auto_advance_eligible : Bool
  pub evidence_ids : List String
  pub mapping_version : String
  pub received_at : ℕ

pub record ManualFallbackPackage : Type 0 where
  pub manual_fallback_package_id : String
  pub case_id : String
  pub package_id : String
  pub submission_attempt_id : Option String
  pub package_version : String
  pub package_hash : String
  pub reason : String
  pub portal_support_level : String
  pub channel_type : String
  pub required_attachments : List String
  pub operator_instructions : List String
  pub required_proof_types : List String
  pub escalation_owner : Option String
  pub proof_bundle_state : String
  pub proof_bundle_artifact_id : Option String
  pub created_at : ℕ

pub record CorrectionTask : Type 0 where
  pub correction_task_id : String
  pub case_id : String
  pub submission_attempt_id : String
  pub status : String
  pub summary : Option String
  pub requested_at : Option ℕ
  pub due_at : Option ℕ

pub record ResubmissionPackage : Type 0 where
  pub resubmission_package_id : String
  pub case_id : String
  pub submission_attempt_id : String
  pub package_id : String
  pub package_version : String
  pub status : String
  pub submitted_at : Option ℕ

pub record ApprovalRecord : Type 0 where
  pub approval_record_id : String
  pub case_id : String
  pub submission_attempt_id : String
  pub decision : String
  pub authority : Option String
  pub decided_at : Option ℕ

pub record InspectionMilestone : Type 0 where
  pub inspection_milestone_id : String
  pub case_id : String
  pub submission_attempt_id : String
  pub milestone_type : String
  pub status : String
  pub scheduled_for : Option ℕ
  pub completed_at : Option ℕ
