-- ===== src/Submission/Rows.antt =====
-- What `deterministic_submission_adapter` of src/sps/workflows/permit_case/activities_impl.py takes,
-- returns and stores.
use Prim.Native.String.{◌++◌}
use mathlib.Core.List.{◌++◌ as ◌++ᴸ◌}
use sps_v.Common.{
  ℕ, String, Bool, false, ◌&&◌, ◌||◌, Option, none, some, List, [], ◌∷◌, map, not, ◌==◌, string_eq,
  nat_eq, if◌then◌else◌, is_some, find, filter, elem, Result, ok, err, one_or_none,
}
use sps_v.Contracts.Enums.{SubmissionAdapterOutcome}
use sps_v.Common.Text.{sorted_set}
use sps_v.Db.{Database, PermitCase, SubmissionPackage, SubmissionAttempt, ManualFallbackPackage}

pub record SubmissionAdapterRequest : Type 0 where
  pub request_id : String
  pub submission_attempt_id : String
  pub case_id : String
  pub package_id : String
  pub manifest_id : String
  pub target_portal_family : String
  pub idempotency_key : String
  pub attempt_number : ℕ
  pub correlation_id : String

pub record SubmissionAdapterResult : Type 0 where
  pub submission_attempt_id : String
  pub status : String
  pub outcome : SubmissionAdapterOutcome
  pub external_tracking_id : Option String
  pub receipt_artifact_id : Option String
  pub submitted_at : Option ℕ
  pub manual_fallback_package_id : Option String
  pub portal_support_level : Option String
  pub failure_class : Option String

-- The adapter's plan; its attachment sources in upper case, as the code compares them.
pub record SubmissionExecutionPlan : Type 0 where
  pub channel_type : String
  pub reason : Option String
  pub operator_instructions : List String
  pub required_proof_types : List String
  pub required_attachment_sources : List String
  pub escalation_owner : Option String

-- What comes from outside: the plan for the case and the portal, if there is one, the identifier of
-- the receipt in the object store, if it takes the receipt, and the times of the rows.
pub record Delivery : Type 0 where
  pub plan : Option SubmissionExecutionPlan
  pub receipt : Option String
  pub submitted_at : ℕ
  pub created_at : ℕ

abbrev pub fallbacks_of : String → Database → List ManualFallbackPackage
fallbacks_of id db =
    filter (λ m. elim m.submission_attempt_id [ none ↦ false | some a ↦ a == id ])
      db.manual_fallback_packages

abbrev pub result_of : SubmissionAttempt → Option ManualFallbackPackage → SubmissionAdapterResult
result_of a manual = record {
  submission_attempt_id = a.submission_attempt_id;
  status = a.status;
  outcome = elim a.outcome [ none ↦ SubmissionAdapterOutcome.failed | some o ↦ o ];
  external_tracking_id = a.external_tracking_id;
  receipt_artifact_id = a.receipt_artifact_id;
  submitted_at = a.submitted_at;
  manual_fallback_package_id = elim manual [
    | none ↦ none
    | some m ↦ some m.manual_fallback_package_id
  ];
  portal_support_level = some a.portal_support_level;
  failure_class = a.failure_class;
}

-- `_load_existing_result`
unfoldable pub load_existing_result : Database → SubmissionAttempt → Result SubmissionAdapterResult
load_existing_result db a = elim (one_or_none (fallbacks_of a.submission_attempt_id db)) [
  | err e ↦ err e
  | ok manual ↦ ok (result_of a manual)
]

-- `_resolve_required_attachments`
pub resolve_required_attachments : Database → SubmissionPackage → List String → List String
resolve_required_attachments db pack sources = sorted_set (
    filter (λ s. not (s == ""))
      ((if elem "MANIFEST" sources then pack.manifest_artifact_id ∷ [] else [])
        ++ᴸ (if elem "DOCUMENTS" sources
            then map (λ d. d.evidence_artifact_id)
                (filter (λ d. d.package_id == pack.package_id) db.document_artifacts)
            else [])))

abbrev pub or_else : String → String → String
or_else s default = if s == "" then default else s

unfoldable pub fallback_required : String → Bool
fallback_required level = level == "UNSUPPORTED" || level == "PARTIALLY_SUPPORTED_READ_ONLY"

-- `plan.reason if plan and plan.reason else ...`
abbrev reason_of : Option SubmissionExecutionPlan → String
reason_of none = "UNSUPPORTED_PORTAL_WORKFLOW"
reason_of (some plan) = elim plan.reason [
  | none ↦ "UNSUPPORTED_PORTAL_WORKFLOW"
  | some r ↦ or_else r "UNSUPPORTED_PORTAL_WORKFLOW"
]

-- A field of the plan, or what stands for it.
abbrev planned {ℓ} :
    {A : Type ℓ} → Option SubmissionExecutionPlan → (SubmissionExecutionPlan → A) → A → A
planned none field default = default
planned (some plan) field default = field plan

module _ (req : SubmissionAdapterRequest) where
  unfoldable pub pending_attempt : PermitCase → SubmissionPackage → SubmissionAttempt
  pending_attempt case pack = record {
    submission_attempt_id = req.submission_attempt_id;
    case_id = req.case_id;
    package_id = req.package_id;
    manifest_artifact_id = pack.manifest_artifact_id;
    target_portal_family = req.target_portal_family;
    portal_support_level = case.portal_support_level;
    request_id = req.request_id;
    idempotency_key = req.idempotency_key;
    attempt_number = req.attempt_number;
    status = "PENDING";
    outcome = none;
    external_tracking_id = none;
    receipt_artifact_id = none;
    submitted_at = none;
    failure_class = none;
  }

  unfoldable pub attempt_conflicts : Database → Bool
  attempt_conflicts db = is_some (
      find
        (λ a.
          a.submission_attempt_id == req.submission_attempt_id
          || (a.request_id == req.request_id
              || (a.idempotency_key == req.idempotency_key
                  || (a.case_id == req.case_id && a.attempt_number == req.attempt_number))))
        db.submission_attempts)

module _ (delivery : Delivery) (req : SubmissionAdapterRequest) where
  unfoldable pub fallback_row : Database → PermitCase → SubmissionPackage → ManualFallbackPackage
  unfolding resolve_required_attachments
  fallback_row db case pack = record {
    manual_fallback_package_id = "MFP-" ++ req.submission_attempt_id;
    case_id = req.case_id;
    package_id = pack.package_id;
    submission_attempt_id = some req.submission_attempt_id;
    package_version = pack.package_version;
    package_hash = pack.manifest_sha256_digest;
    reason = reason_of delivery.plan;
    portal_support_level = or_else case.portal_support_level "UNKNOWN";
    channel_type = planned delivery.plan (λ p. p.channel_type) "official_authority_email";
    required_attachments =
        resolve_required_attachments db pack
          (planned delivery.plan (λ p. p.required_attachment_sources) ("MANIFEST" ∷ []));
    operator_instructions = planned delivery.plan (λ p. p.operator_instructions) [];
    required_proof_types = planned delivery.plan (λ p. p.required_proof_types) [];
    escalation_owner = planned delivery.plan (λ p. p.escalation_owner) none;
    proof_bundle_state = "PENDING_REVIEW";
    proof_bundle_artifact_id = none;
    created_at = delivery.created_at;
  }
