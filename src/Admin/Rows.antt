-- ===== src/Admin/Rows.antt =====
-- The rows, requests and answers of the change workflows.
use sps_v.Auth.{Refusal}
use sps_v.Common.{ℕ, String, Bool, true, not, List, ◌==◌, string_eq}

-- The columns `portal_family`, `rule_scope` and `program_key` are `key`.
pub record Intent (Payload : Type 0) : Type 0 where
  pub intent_id : String
  pub key : String
  pub payload : Payload
  pub status : String
  pub requested_by : String
  pub created_at : ℕ
  pub updated_at : ℕ

-- Less `review_payload`, which is stored as it comes and not read.
pub record Review : Type 0 where
  pub review_id : String
  pub intent_id : String
  pub reviewer_id : String
  pub decision_outcome : String
  pub idempotency_key : String
  pub reviewed_at : ℕ

-- A row of `portal_support_metadata`, `source_rules` or `incentive_programs`.
pub record Setting (Payload : Type 0) : Type 0 where
  pub setting_id : String
  pub key : String
  pub payload : Payload
  pub created_at : ℕ
  pub updated_at : ℕ

pub data EventPayload : Type 0 where
  intent_created : (intent_id : String) → EventPayload
  review_recorded : (intent_id review_id decision_outcome idempotency_key : String) → EventPayload
  applied : (intent_id review_id setting_id : String) → EventPayload

-- What `emit_audit_event` stages, less the identifier, a UUID.
pub record Event : Type 0 where
  pub action : String
  pub actor_type : String
  pub actor_id : String
  pub correlation_id : String
  pub request_id : String
  pub payload : EventPayload
  pub occurred_at : ℕ

-- The tables of one workflow.
pub record Store (Payload : Type 0) : Type 0 where
  pub intents : List (Intent Payload)
  pub reviews : List Review
  pub settings : List (Setting Payload)
  pub audit_events : List Event

-- What the three differ in: the start of the actions' names, and the test of the request's payload.
pub record Service (Payload : Type 0) : Type 0 where
  pub prefix : String
  pub is_valid_payload : Payload → Bool

-- The support level and the dictionary.
abbrev pub portal_support : (Json : Type 0) → Service (String × Json)
portal_support Json = record {
  prefix = "ADMIN_PORTAL_SUPPORT";
  is_valid_payload = λ p. not (p.0 == "");
}

abbrev pub source_rules : (Json : Type 0) → Service Json
source_rules Json = record { prefix = "ADMIN_SOURCE_RULE"; is_valid_payload = λ p. true }

abbrev pub incentive_programs : (Json : Type 0) → Service Json
incentive_programs Json = record {
  prefix = "ADMIN_INCENTIVE_PROGRAM";
  is_valid_payload = λ p. true;
}

pub record IntentCreateRequest (Payload : Type 0) : Type 0 where
  pub intent_id : String
  pub key : String
  pub payload : Payload
  pub requested_by : String

pub record ReviewDecisionRequest : Type 0 where
  pub review_id : String
  pub intent_id : String
  pub reviewer_id : String
  pub decision_outcome : String
  pub idempotency_key : String

-- The answers. The last is an error that nothing catches.
pub data Reply (Payload : Type 0) : Type 0 where
  created : Intent Payload → Reply Payload
  recorded : Review → Reply Payload
  changed : (intent_id : String) → Setting Payload → ℕ → Reply Payload
  intent_conflict intent_not_found review_required : (intent_id : String) → Reply Payload
  review_idempotency_conflict : (review_id idempotency_key : String) → Reply Payload
  review_conflict : (review_id : String) → Reply Payload
  refused : Refusal → Reply Payload
  validation_failed internal_error : Reply Payload
