-- ===== src/Reviews/Persisted/Examples.antt =====
-- A decision that is stored, and stored again.
use sps_v.Common.{◌≡◌, ◌⊎◌, refl, false, none, [], ◌∷◌, string_eq, find, ok, err, Error}
use sps_v.Common.Time.{aware}
use sps_v.Contracts.Enums.{ReviewDecisionOutcome, ReviewerIndependenceStatus}
use sps_v.Db.{Database}
use sps_v.Db.Samples.{empty, sample_case}
use sps_v.Failpoints.{Failpoints, fail_once}
use sps_v.Reviews.Persisted.{
  PersistReviewDecisionRequest, review_decision, clashes, persist_review_decision,
  persist-persist_decision,
}

abbrev request : PersistReviewDecisionRequest
request = record {
  decision_id = "review-1";
  schema_version = "1.0.0";
  case_id = "case-1";
  object_id = "case-1";
  decision_outcome = ReviewDecisionOutcome.accept;
  reviewer_id = "reviewer";
  reviewer_independence_status = ReviewerIndependenceStatus.pass;
  evidence_ids = [];
  contradiction_resolution = none;
  dissent_flag = false;
  notes = none;
  decision_at = aware 7;
  idempotency_key = "key-1";
}

abbrev off : Failpoints
off = record { is_enabled = false; enabled_keys = []; fired_keys = []; seen_counts = λ k. 0 }

abbrev before : Database
before = record empty { permit_cases = sample_case ∷ [] }

abbrev after : Database
after = record before { review_decisions = review_decision request ∷ [] }

stores : persist_review_decision (λ d. d) off request before ≡ (ok "review-1", off, after)
unfolding persist_review_decision clashes find fail_once
stores = refl

abbrev other : PersistReviewDecisionRequest
other = record request { decision_id = "review-2" }

persist-persist_decision_example :
    (let again = persist_review_decision (λ d. d) off other after in
      (again.2 ≡ after) × ((again.0 ≡ ok "review-1") ⊎ (again.0 ≡ err Error.failpoint_fired)))
persist-persist_decision_example =
    persist-persist_decision (λ d. d) (λ d. d) off off off request other before after after
      "review-1" stores refl refl
