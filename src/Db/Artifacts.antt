-- ===== src/Db/Artifacts.antt =====
-- src/sps/db/models_artifacts.py
use sps_v.Common.{ℕ, String, Bool, Option, List}
use sps_v.Contracts.CaseState.{CaseState}
use sps_v.Contracts.Enums.{
  ActorType, EventType, DenialReason, ReviewDecisionOutcome, ReviewerIndependenceStatus,
}

-- `"state_transition.applied"`, `"state_transition.denied"` and `"review_decision.created"`
pub data AuditAction : Type 0 where
  transition_applied transition_denied review_decision_created : AuditAction

-- The `payload` dictionaries that the modelled code builds.
pub data AuditPayload : Type 0 where
  transition :
      (case_id : String) (from_state to_state : CaseState) (result : Bool) (event_type : EventType)
      (denial_reason : Option DenialReason) (guard_assertion_id : Option String)
      → AuditPayload
  review :
      (decision_id case_id : String) (decision_outcome : ReviewDecisionOutcome)
      (idempotency_key : String) (dissent_flag : Bool)
      (reviewer_independence_status : ReviewerIndependenceStatus)
      → AuditPayload

pub record AuditEvent : Type 0 where
  pub event_id : String
  pub correlation_id : Option String
  pub request_id : Option String
  pub actor_type : ActorType
  pub actor_id : String
  pub action : AuditAction
  pub payload : Option AuditPayload
  pub occurred_at : ℕ

pub record EvidenceArtifact : Type 0 where
  pub artifact_id : String
  pub artifact_class : String
  pub linked_case_id : Option String
  pub linked_object_id : Option String
  pub retention_class : String
  pub expires_at : Option ℕ
  pub legal_hold_flag : Bool

pub record LegalHold : Type 0 where
  pub hold_id : String
  pub reason : String
  pub status : String

pub record LegalHoldBinding : Type 0 where
  pub binding_id : String
  pub hold_id : String
  pub artifact_id : Option String
  pub case_id : Option String

pub record ReleaseBundle : Type 0 where
  pub release_id : String
  pub spec_version : String
  pub app_version : String
  pub schema_version : String
  pub model_version : String
  pub policy_bundle_version : String
  pub invariant_pack_version : String
  pub adapter_versions : List (String × String)
  pub artifact_digests : List (String × String)
  pub created_at : ℕ

pub record ReleaseArtifact : Type 0 where
  pub artifact_id : String
  pub release_id : String
  pub checksum : String
  pub storage_uri : String
  pub created_at : ℕ
