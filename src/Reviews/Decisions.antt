-- ===== src/Reviews/Decisions.antt =====
-- `create_review_decision` and `get_review_decision` of src/sps/api/routes/reviews.py.
pub mod Effects
mod Examples
pub mod Samples
pub mod Retry
pub mod Opens
pub mod Consistent
use Prim.Native.String.{◌++◌}
use mathlib.Core.List.{◌++◌ as ◌++ᴸ◌}
use sps_v.Common.{
  ℕ, String, Bool, true, false, not, ◌&&◌, ◌||◌, Option, none, some, List, [], ◌∷◌, ◌==◌, string_eq,
  if◌then◌else◌, is_some, find,
}
use sps_v.Contracts.Enums.{ReviewDecisionOutcome, ReviewerIndependenceStatus, ActorType}
use sps_v.Contracts.Signals.{ReviewDecisionSignal, review_signal}
use sps_v.Db.{Database, ReviewDecision, DissentArtifact, AuditEvent, AuditAction, AuditPayload}
use sps_v.Reviews.Independence.{
  BlockedReason, Verdict, cleared, refused, check_reviewer_independence,
}

pub record CreateReviewDecisionRequest : Type 0 where
  pub decision_id : String
  pub idempotency_key : String
  pub case_id : String
  pub reviewer_id : String
  pub subject_author_id : String
  pub outcome : ReviewDecisionOutcome
  pub notes : Option String
  pub evidence_ids : List String
  pub dissent_scope : Option String
  pub dissent_rationale : Option String
  pub dissent_required_followup : Option String

-- Less `created`, the `created_at` that the server fills in.
pub record ReviewDecisionResponse : Type 0 where
  pub decision_id : String
  pub case_id : String
  pub outcome : ReviewDecisionOutcome
  pub idempotency_key : String
  pub dissent_artifact_id : Option String

-- The responses: the success, and the errors with what their `detail` names.
pub data Response : Type 0 where
  decided : ReviewDecisionResponse → Response
  validation_failed : Response
  independence_denied : BlockedReason → Response
  idempotency_conflict : (existing_decision_id idempotency_key : String) → Response
  not_found : Response
  internal_error : Response

-- A response, the database behind it, and the signal that the endpoint tries to deliver.
pub record Reply : Type 0 where
  pub response : Response
  pub db : Database
  pub signal : Option ReviewDecisionSignal

abbrev answer : Response → Database → Reply
answer response db = record { response = response; db = db; signal = none }

abbrev pub is_dissent : ReviewDecisionOutcome → Bool
is_dissent ReviewDecisionOutcome.accept_with_dissent = true
is_dissent _ = false

abbrev pub dissent_id : String → String
dissent_id decision_id = "DISSENT-" ++ decision_id

-- `_row_to_response`
abbrev pub row_to_response : ReviewDecision → ReviewDecisionResponse
row_to_response row = record {
  decision_id = row.decision_id;
  case_id = row.case_id;
  outcome = row.decision_outcome;
  idempotency_key = row.idempotency_key;
  dissent_artifact_id = if row.dissent_flag then some (dissent_id row.decision_id) else none;
}

abbrev is_given : String → Bool
is_given s = not (s == "")

-- The fields' `min_length=1`, and `_validate_dissent_fields`.
pub is_valid_request : CreateReviewDecisionRequest → Bool
is_valid_request req =
    is_given req.decision_id
    && (is_given req.idempotency_key
        && (is_given req.case_id
            && (is_given req.reviewer_id
                && (is_given req.subject_author_id
                    && (not (is_dissent req.outcome)
                        || (is_some req.dissent_scope && is_some req.dissent_rationale))))))

pub decision_row : CreateReviewDecisionRequest → ReviewerIndependenceStatus → ℕ → ReviewDecision
decision_row req status now = record {
  decision_id = req.decision_id;
  schema_version = "1.0";
  case_id = req.case_id;
  object_type = "permit_case";
  object_id = req.case_id;
  decision_outcome = req.outcome;
  reviewer_id = req.reviewer_id;
  subject_author_id = some req.subject_author_id;
  reviewer_independence_status = status;
  evidence_ids = req.evidence_ids;
  contradiction_resolution = none;
  dissent_flag = is_dissent req.outcome;
  notes = req.notes;
  decision_at = now;
  idempotency_key = req.idempotency_key;
}

-- The validator has made sure of the scope and the rationale of a dissent.
abbrev or_empty : Option String → String
or_empty none = ""
or_empty (some s) = s

unfoldable pub dissent_row : CreateReviewDecisionRequest → ℕ → DissentArtifact
dissent_row req now = record {
  dissent_id = dissent_id req.decision_id;
  linked_review_id = req.decision_id;
  case_id = req.case_id;
  scope = or_empty req.dissent_scope;
  rationale = or_empty req.dissent_rationale;
  required_followup = req.dissent_required_followup;
  resolution_state = "OPEN";
  created_at = now;
}

pub audit_row : String → CreateReviewDecisionRequest → ReviewerIndependenceStatus → ℕ → AuditEvent
audit_row event_id req status now = record {
  event_id = event_id;
  correlation_id = some req.case_id;
  request_id = some req.decision_id;
  actor_type = ActorType.reviewer;
  actor_id = req.reviewer_id;
  action = AuditAction.review_decision_created;
  payload = some (
      AuditPayload.review req.decision_id req.case_id req.outcome req.idempotency_key
        (is_dissent req.outcome) status);
  occurred_at = now;
}

-- The constraints that the flush and the commit check: the foreign key on the case, the primary
-- keys, and the one dissent for each review. The idempotency key was looked up before.
pub violates : String → CreateReviewDecisionRequest → Database → Bool
violates event_id req db =
    not (is_some (find (λ c. c.case_id == req.case_id) db.permit_cases))
    || (is_some (find (λ r. r.decision_id == req.decision_id) db.review_decisions)
        || ((is_dissent req.outcome
              && is_some (
                  find
                    (λ d.
                      d.dissent_id == dissent_id req.decision_id
                      || d.linked_review_id == req.decision_id)
                    db.dissent_artifacts))
            || is_some (find (λ e. e.event_id == event_id) db.audit_events)))

unfoldable pub writes :
    String → CreateReviewDecisionRequest → ReviewerIndependenceStatus → ℕ → Database → Database
writes event_id req status now db = record db {
  review_decisions = db.review_decisions ++ᴸ decision_row req status now ∷ [];
  dissent_artifacts =
      if is_dissent req.outcome
      then db.dissent_artifacts ++ᴸ dissent_row req now ∷ []
      else db.dissent_artifacts;
  audit_events = db.audit_events ++ᴸ audit_row event_id req status now ∷ [];
}

pub find_by_key : CreateReviewDecisionRequest → Database → Option ReviewDecision
find_by_key req db = find (λ r. r.idempotency_key == req.idempotency_key) db.review_decisions

-- After the independence check: the idempotency lookup, and the insertion.
pub record_decision :
    String → CreateReviewDecisionRequest → ReviewerIndependenceStatus → ℕ → Database → Reply
record_decision event_id req status now db = elim (find_by_key req db) [
  | some existing ↦
      if existing.decision_id == req.decision_id
      then answer (Response.decided (row_to_response existing)) db
      else answer (Response.idempotency_conflict existing.decision_id req.idempotency_key) db
  | none ↦ if violates event_id req db then answer Response.internal_error db else record {
    response = Response.decided (row_to_response (decision_row req status now));
    db = writes event_id req status now db;
    signal = some (review_signal req.decision_id req.outcome req.reviewer_id);
  }
]

-- The endpoint at the time `now`, with `event_id` for the UUID of the audit event.
pub create_review_decision : String → ℕ → CreateReviewDecisionRequest → Database → Reply
create_review_decision event_id now req db =
    if is_valid_request req
    then elim (check_reviewer_independence db req.reviewer_id req.subject_author_id now) [
      | refused reason ↦ answer (Response.independence_denied reason) db
      | cleared status ↦ record_decision event_id req status now db
    ]
    else answer Response.validation_failed db

-- `get_review_decision`
pub get_review_decision : String → Database → Response
get_review_decision decision_id db =
    elim (find (λ r. r.decision_id == decision_id) db.review_decisions) [
      | none ↦ Response.not_found
      | some row ↦ Response.decided (row_to_response row)
    ]
