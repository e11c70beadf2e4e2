-- ===== src/Reviews/Decisions/Opens.antt =====
-- The decision that the endpoint inserts and the review gate of the transition guard.
use sps_v.Common.{ℕ, String, ◌≡◌, ◌≢◌, sym, none, some, string_eq, arith, eq_iff}
use sps_v.Contracts.Enums.{ReviewDecisionOutcome}
use sps_v.Contracts.Transition.{StateTransitionRequest}
use sps_v.Db.{Database}
use sps_v.Guard.Spec.{HasReview}
use sps_v.Reviews.Decisions.Effects.{IsCreated-signal, find_created}
use sps_v.Reviews.Decisions.{
  CreateReviewDecisionRequest, is_valid_request, decision_row, create_review_decision,
}

-- A decision that was inserted and does not block satisfies the review gate, at any time, for a
-- transition of its case that names it.
pub HasReview-create :
    (event_id : String) (now at : ℕ) (req : CreateReviewDecisionRequest) (db : Database)
    (transition : StateTransitionRequest)
    → (create_review_decision event_id now req db).signal ≢ none
    → req.outcome ≢ ReviewDecisionOutcome.block
    → transition.case_id ≡ req.case_id
    → transition.required_review_id ≡ some req.decision_id
    → HasReview transition at (create_review_decision event_id now req db).db
unfolding decision_row is_valid_request
HasReview-create event_id now at req db transition sent passes same named =
    let (s, made) = IsCreated-signal event_id now req db sent in
    record {
      review_id = req.decision_id;
      row = decision_row req s now;
      named = named;
      not_empty = λ e. ground (arith, made.valid, eq_iff req.decision_id "");
      found = find_created made;
      same_case = sym same;
      accepts = passes;
    }
