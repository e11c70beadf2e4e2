-- ===== src/Reviews/Decisions/Examples.antt =====
-- The decision endpoint on sample requests.
use sps_v.Common.{
  ◌+◌, ◌*◌, ◌≤◌, String, ◌≡◌, ◌≢◌, ◌↔◌, refl, true, string_eq, if◌then◌else◌, find, count, ltb,
  arith,
}
use sps_v.Contracts.Enums.{ReviewerIndependenceStatus}
use sps_v.Contracts.Samples.{approval_request}
use sps_v.Guard.Spec.{HasReview}
use sps_v.Reviews.Independence.{
  BlockedReason, compute_metrics, independence_status, check_reviewer_independence, cleared,
}
use sps_v.Reviews.Independence.Policy.{recent, recent_pair, cleared_iff}
use sps_v.Reviews.Decisions.Samples.{sample_db, sample_request, sample_time, first, first_signals}
use sps_v.Reviews.Decisions.Retry.{retry_create}
use sps_v.Reviews.Decisions.Opens.{HasReview-create}
use sps_v.Reviews.Decisions.Consistent.{IsConsistent, create-IsConsistent}
use sps_v.Reviews.Decisions.{
  CreateReviewDecisionRequest, Response, is_valid_request, decision_row, violates, writes,
  find_by_key, record_decision, create_review_decision, answer,
}

-- Another decision under the same key.
abbrev other_request : CreateReviewDecisionRequest
other_request = record sample_request { decision_id = "review-2"; reviewer_id = "reviewer-2" }

other_valid : is_valid_request other_request ≡ true
unfolding is_valid_request
other_valid = refl

other_clears :
    check_reviewer_independence first.db "reviewer-2" "author" sample_time
    ≡ cleared ReviewerIndependenceStatus.pass
unfolding create_review_decision record_decision is_valid_request check_reviewer_independence
    compute_metrics independence_status find_by_key violates find count writes decision_row
other_clears = refl

retry_create_example :
    create_review_decision "event-2" (sample_time + 1) sample_request first.db
    ≡ answer
        (if ltb
            (recent sample_db (sample_time + 1) + 2)
            (2 * (recent_pair sample_db "reviewer" "author" (sample_time + 1) + 1))
          then Response.independence_denied BlockedReason.independence_threshold_blocked
          else first.response)
        first.db
retry_create_example =
    retry_create "event-1" "event-2" sample_time (sample_time + 1) sample_request sample_db
      first_signals (omega arith) (omega arith)

HasReview-create_example : HasReview approval_request 7 first.db
HasReview-create_example =
    HasReview-create "event-1" sample_time 7 sample_request sample_db approval_request first_signals
      (λ e. cc) refl refl

sample-IsConsistent : IsConsistent sample_db
sample-IsConsistent = record { unique_ids = tt; unique_keys = tt; independent = tt; dissents = tt }

create-IsConsistent_example : IsConsistent first.db
create-IsConsistent_example =
    create-IsConsistent "event-1" sample_time sample_request sample_db sample-IsConsistent

cleared_iff_example :
    ((s : ReviewerIndependenceStatus) × (check_reviewer_independence sample_db "reviewer" "author"
          sample_time
        ≡ cleared s))
    ↔ ((◌≢◌ {A = String} "reviewer" "author")
        × (2 * recent_pair sample_db "reviewer" "author" sample_time
            ≤ recent sample_db sample_time + 1))
cleared_iff_example = cleared_iff sample_db "reviewer" "author" sample_time (omega arith)
