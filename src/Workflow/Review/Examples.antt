-- ===== src/Workflow/Review/Examples.antt =====
-- A review that is accepted, signalled to a run that waits.
use sps_v.Common.{false, none, some, [], ◌∷◌}
use sps_v.Common.Time.{aware}
use sps_v.Contracts.Enums.{
  ReviewDecisionOutcome, ReviewerIndependenceStatus, EventType, DenialReason,
}
use sps_v.Contracts.Signals.{ReviewDecisionSignal, review_signal}
use sps_v.Contracts.Transition.{StateTransitionRequest, StateTransitionResult}
use sps_v.Db.{ReviewDecision}
use sps_v.Db.Samples.{empty, sample_case}
use sps_v.Guard.Apply.{World}
use sps_v.Guard.Gates.{deny}
use sps_v.Workflow.{new_self}
use sps_v.Workflow.Review.{second_request}
use sps_v.Workflow.Samples.{sample_world, info}

abbrev first_signal : ReviewDecisionSignal
first_signal = review_signal "decision-1" ReviewDecisionOutcome.accept "reviewer-1"

abbrev stored_decision : ReviewDecision
stored_decision = record {
  decision_id = "decision-1";
  schema_version = "1.0";
  case_id = "case-1";
  object_type = "permit_case";
  object_id = "case-1";
  decision_outcome = ReviewDecisionOutcome.accept;
  reviewer_id = "reviewer-1";
  subject_author_id = some "author";
  reviewer_independence_status = ReviewerIndependenceStatus.pass;
  evidence_ids = [];
  contradiction_resolution = none;
  dissent_flag = false;
  notes = none;
  decision_at = 5;
  idempotency_key = "key-1";
}

abbrev reviewed : World
reviewed = record sample_world {
  db = record empty { permit_cases = sample_case ∷ []; review_decisions = stored_decision ∷ [] };
}

abbrev denied : StateTransitionResult
denied = deny 6 EventType.approval_gate_denied DenialReason.review_decision_required none none

abbrev second : StateTransitionRequest
second = second_request info new_self "case-1" "first" "decision-1" denied first_signal [] (aware 7)
