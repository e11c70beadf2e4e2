-- ===== src/Db/Reviewing.antt =====
-- src/sps/db/models_reviewing.py, less the server's timestamps. Outcomes and statuses are the texts
-- of their enumerations.
use sps_v.Common.{ℕ, String, Bool, Option, List}
use sps_v.Contracts.CaseState.{CaseState}
use sps_v.Contracts.Enums.{ReviewDecisionOutcome, ReviewerIndependenceStatus, ActorType, EventType}
use sps_v.Contracts.Transition.{StateTransitionResult}

pub record ReviewDecision : Type 0 where
  pub decision_id : String
  pub schema_version : String
  pub case_id : String
  pub object_type : String
  pub object_id : String
  pub decision_outcome : ReviewDecisionOutcome
  pub reviewer_id : String
  pub subject_author_id : Option String
  pub reviewer_independence_status : ReviewerIndependenceStatus
  pub evidence_ids : List String
  pub contradiction_resolution : Option String
  pub dissent_flag : Bool
  pub notes : Option String
  pub decision_at : ℕ
  pub idempotency_key : String

pub record ContradictionArtifact : Type 0 where
  pub contradiction_id : String
  pub case_id : String
  pub scope : String
  pub source_a : String
  pub source_b : String
  pub ranking_relation : String
  pub blocking_effect : Bool
  pub resolution_status : String
  pub resolved_at : Option ℕ
  pub resolved_by : Option String

pub record DissentArtifact : Type 0 where
  pub dissent_id : String
  pub linked_review_id : String
  pub case_id : String
  pub scope : String
  pub rationale : String
  pub required_followup : Option String
  pub resolution_state : String
  pub created_at : ℕ

-- `payload` is the JSON of a result, which `parse_state_transition_result` reads back.
pub record CaseTransitionLedger : Type 0 where
  pub transition_id : String
  pub case_id : String
  pub event_type : EventType
  pub from_state : Option CaseState
  pub to_state : Option CaseState
  pub actor_type : ActorType
  pub actor_id : String
  pub correlation_id : Option String
  pub occurred_at : ℕ
  pub payload : Option StateTransitionResult
