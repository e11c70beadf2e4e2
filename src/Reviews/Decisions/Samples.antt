-- ===== src/Reviews/Decisions/Samples.antt =====
-- A sample request for a decision, and what the endpoint makes of it.
use sps_v.Common.{ℕ, ◌≡◌, ◌≢◌, refl, sym, none, some, [], ◌∷◌, string_eq, find, count}
use sps_v.Common.Time.{days}
use sps_v.Contracts.Enums.{ReviewDecisionOutcome}
use sps_v.Contracts.Signals.{review_signal}
use sps_v.Db.{Database}
use sps_v.Db.Samples.{empty, sample_case}
use sps_v.Reviews.Independence.{compute_metrics, independence_status, check_reviewer_independence}
use sps_v.Reviews.Decisions.{
  CreateReviewDecisionRequest, Reply, is_valid_request, violates, find_by_key, record_decision,
  create_review_decision,
}

abbrev pub sample_db : Database
sample_db = record empty { permit_cases = sample_case ∷ [] }

abbrev pub sample_request : CreateReviewDecisionRequest
sample_request = record {
  decision_id = "review-1";
  idempotency_key = "key-1";
  case_id = "case-1";
  reviewer_id = "reviewer";
  subject_author_id = "author";
  outcome = ReviewDecisionOutcome.accept_with_dissent;
  notes = none;
  evidence_ids = [];
  dissent_scope = some "wall:HIGH_RISK";
  dissent_rationale = some "rationale";
  dissent_required_followup = none;
}

abbrev pub sample_time : ℕ
sample_time = days 100

abbrev pub first : Reply
first = create_review_decision "event-1" sample_time sample_request sample_db

first_sends :
    first.signal
    ≡ some (review_signal "review-1" ReviewDecisionOutcome.accept_with_dissent "reviewer")
unfolding create_review_decision record_decision is_valid_request check_reviewer_independence
    compute_metrics independence_status find_by_key violates find count
first_sends = refl

pub first_signals : first.signal ≢ none
first_signals e = cc (sym first_sends, e)
