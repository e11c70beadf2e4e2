-- ===== src/Contracts/Signals.antt =====
-- The signal payloads of src/sps/workflows/permit_case/contracts.py.
use sps_v.Common.{String, Option, none, some, List, []}
use sps_v.Contracts.CaseState.{CaseState}
use sps_v.Contracts.Enums.{ReviewDecisionOutcome, ReviewerIndependenceStatus, ExternalStatusClass}

pub record ReviewDecisionSignal : Type 0 where
  pub decision_outcome : ReviewDecisionOutcome
  pub reviewer_id : String
  pub reviewer_independence_status : ReviewerIndependenceStatus
  pub evidence_ids : List String
  pub contradiction_resolution : Option String
  pub notes : Option String
  pub decision_id : Option String

-- `ReviewDecisionSignal(decision_id=..., decision_outcome=..., reviewer_id=...)`, the rest defaults.
abbrev pub review_signal : String → ReviewDecisionOutcome → String → ReviewDecisionSignal
review_signal decision_id outcome reviewer_id = record {
  decision_outcome = outcome;
  reviewer_id = reviewer_id;
  reviewer_independence_status = ReviewerIndependenceStatus.pass;
  evidence_ids = [];
  contradiction_resolution = none;
  notes = none;
  decision_id = some decision_id;
}

pub record StatusEventSignal : Type 0 where
  pub event_id : String
  pub case_id : String
  pub submission_attempt_id : String
  pub normalized_status : ExternalStatusClass

pub record EmergencyHoldRequest : Type 0 where
  pub emergency_id : String
  pub target_state : CaseState

pub record EmergencyHoldExitRequest : Type 0 where
  pub target_state : CaseState
  pub reviewer_confirmation_id : String
