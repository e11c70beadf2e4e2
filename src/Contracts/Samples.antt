-- ===== src/Contracts/Samples.antt =====
-- The request of the examples: an approval that names a review.
use sps_v.Common.{none, some, []}
use sps_v.Common.Time.{aware}
use sps_v.Contracts.CaseState.{review_pending, approved_for_submission}
use sps_v.Contracts.Enums.{ActorType}
use sps_v.Contracts.Transition.{StateTransitionRequest}

abbrev pub approval_request : StateTransitionRequest
approval_request = record {
  request_id = "request-1";
  case_id = "case-1";
  from_state = review_pending;
  to_state = approved_for_submission;
  actor_type = ActorType.system_guard;
  actor_id = "guard";
  correlation_id = "flow";
  causation_id = none;
  required_review_id = some "review-1";
  required_evidence_ids = [];
  override_id = none;
  requested_at = aware 7;
  notes = none;
}
