-- ===== src/Contracts/Transition.antt =====
-- `StateTransitionRequest` and its results, of src/sps/workflows/permit_case/contracts.py.
use sps_v.Common.{ℕ, String, Bool, true, false, Option, List}
use sps_v.Common.Time.{Datetime}
use sps_v.Contracts.CaseState.{CaseState}
use sps_v.Contracts.Enums.{ActorType, EventType, DenialReason}

pub record StateTransitionRequest : Type 0 where
  pub request_id : String
  pub case_id : String
  pub from_state : CaseState
  pub to_state : CaseState
  pub actor_type : ActorType
  pub actor_id : String
  pub correlation_id : String
  pub causation_id : Option String
  pub required_review_id : Option String
  pub required_evidence_ids : List String
  pub override_id : Option String
  pub requested_at : Datetime
  pub notes : Option String

pub record Applied : Type 0 where
  pub event_type : EventType
  pub applied_at : ℕ

pub record Denied : Type 0 where
  pub event_type : EventType
  pub denied_at : ℕ
  pub denial_reason : DenialReason
  pub guard_assertion_id : Option String
  pub normalized_business_invariants : Option (List String)

-- `AppliedStateTransitionResult | DeniedStateTransitionResult`
pub data StateTransitionResult : Type 0 where
  applied : Applied → StateTransitionResult
  denied : Denied → StateTransitionResult

-- `result.result == "applied"`
abbrev pub is_applied : StateTransitionResult → Bool
is_applied (applied a) = true
is_applied (denied d) = false

-- `result.event_type`
abbrev pub event_type : StateTransitionResult → EventType
event_type (applied a) = a.event_type
event_type (denied d) = d.event_type
