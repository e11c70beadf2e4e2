-- ===== src/Reviews/Decisions/Retry.antt =====
-- What a later call with the key of a stored decision is answered.
use sps_v.Common.{
  ℕ, ◌+◌, ◌*◌, ◌-◌, ◌≤◌, String, ◌≡◌, ◌≢◌, refl, ◌∙◌, ap, true, none, some, ◌==◌, string_eq,
  if◌then◌else◌, arith, Bool-cases, inl, inr, ltb, str_refl, count-append,
}
use sps_v.Common.Time.{days}
use sps_v.Contracts.Enums.{ReviewerIndependenceStatus}
use sps_v.Db.{Database, ReviewDecision}
use sps_v.Reviews.Independence.{
  in_window, in_pair, BlockedReason, cleared, refused, judge, independence_status,
  check_reviewer_independence,
}
use sps_v.Reviews.Independence.Policy.{
  recent, recent_pair, check_lem, judge_blocked, judge_complete, check-ne,
}
use sps_v.Reviews.Decisions.Effects.{IsCreated-signal, find_by_key_created}
use sps_v.Reviews.Decisions.{
  CreateReviewDecisionRequest, Response, row_to_response, is_valid_request, decision_row, writes,
  find_by_key, record_decision, create_review_decision, answer,
}

create_known :
    (event_id : String) (now : ℕ) (req : CreateReviewDecisionRequest) (db : Database)
    (status : ReviewerIndependenceStatus) (row : ReviewDecision)
    → is_valid_request req ≡ true
    → check_reviewer_independence db req.reviewer_id req.subject_author_id now ≡ cleared status
    → find_by_key req db ≡ some row
    → create_review_decision event_id now req db
      ≡ answer
          (if row.decision_id == req.decision_id
            then Response.decided (row_to_response row)
            else Response.idempotency_conflict row.decision_id req.idempotency_key)
          db
unfolding create_review_decision record_decision
create_known event_id now req db status row valid clears old = ground arith

create_refused :
    (event_id : String) (now : ℕ) (req : CreateReviewDecisionRequest) (db : Database)
    (reason : BlockedReason)
    → is_valid_request req ≡ true
    → check_reviewer_independence db req.reviewer_id req.subject_author_id now ≡ refused reason
    → create_review_decision event_id now req db ≡ answer (Response.independence_denied reason) db
unfolding create_review_decision
create_refused event_id now req db reason valid refuses = ground arith

module _ (event_id event_id' : String) (now now' : ℕ) (req req' : CreateReviewDecisionRequest)
    (db later : Database) (status' : ReviewerIndependenceStatus) where
  -- After a call has inserted a decision, a valid call with the same idempotency key whose reviewer
  -- is cleared, on any database where the key still finds that row, inserts nothing: it is answered
  -- with the first response if it names the same decision, and with a conflict if it does not.
  pub second_create :
      (create_review_decision event_id now req db).signal ≢ none
      → req'.idempotency_key ≡ req.idempotency_key
      → find_by_key req later ≡ find_by_key req (create_review_decision event_id now req db).db
      → is_valid_request req' ≡ true
      → check_reviewer_independence later req'.reviewer_id req'.subject_author_id now'
        ≡ cleared status'
      → create_review_decision event_id' now' req' later
        ≡ answer
            (if req.decision_id == req'.decision_id
              then (create_review_decision event_id now req db).response
              else Response.idempotency_conflict req.decision_id req.idempotency_key)
            later
  unfolding find_by_key decision_row
  second_create sent key kept valid clears =
      let (s, made) = IsCreated-signal event_id now req db sent in
      create_known event_id' now' req' later status' (decision_row req s now) valid clears
        (rw key (kept ∙ find_by_key_created made))
      ∙ rw made.answers (rw key)

-- The new row counts in every window that it falls into.
module _ (event_id : String) (req : CreateReviewDecisionRequest)
    (status : ReviewerIndependenceStatus) (now now' : ℕ) (db : Database)
    (le : now' - days 90 ≤ now) where
  recent-writes : recent (writes event_id req status now db) now' ≡ recent db now' + 1
  unfolding writes decision_row
  recent-writes =
      count-append (in_window (now' - days 90)) db.review_decisions (decision_row req status now)
      ∙ ground arith

  recent_pair-writes :
      recent_pair (writes event_id req status now db) req.reviewer_id req.subject_author_id now'
      ≡ recent_pair db req.reviewer_id req.subject_author_id now' + 1
  unfolding writes decision_row
  recent_pair-writes =
      count-append (in_pair (now' - days 90) req.reviewer_id req.subject_author_id)
        db.review_decisions (decision_row req status now)
      ∙ ground (arith, str_refl req.reviewer_id, str_refl req.subject_author_id)

module _ (event_id : String) (now now' : ℕ) (req : CreateReviewDecisionRequest) (db : Database)
    (status : ReviewerIndependenceStatus) where
  -- What the check says of the same pair once the decision is stored.
  check-writes :
      now' ≤ now + days 90
      → days 90 ≤ now'
      → req.reviewer_id ≢ req.subject_author_id
      → check_reviewer_independence
          (writes event_id req status now db)
          req.reviewer_id
          req.subject_author_id
          now'
        ≡ judge (
            independence_status
              (recent_pair db req.reviewer_id req.subject_author_id now' + 1)
              (recent db now' + 2))
  check-writes soon late ne =
      check_lem (writes event_id req status now db) req.reviewer_id req.subject_author_id now' late
        ne
      ∙ rw
          (
            recent-writes event_id req status now now' db (omega arith),
            recent_pair-writes event_id req status now now' db (omega arith),
          )
          (ap
            (λ n. judge (
              independence_status (recent_pair db req.reviewer_id req.subject_author_id now' + 1)
                n))
            (omega arith))

module _ (event_id event_id' : String) (now now' : ℕ) (req : CreateReviewDecisionRequest)
    (db : Database) where
  -- A call that has inserted a decision is repeated, on the database it left, at most 90 days after
  -- it and at least 90 days after `datetime.min`.
  -- The decision itself now counts in the policy, which is applied before the key is looked up: the
  -- repetition is refused if the pair's reviews, this one included, exceed half of all with one more
  -- counted, and otherwise answered as the first time. In both cases nothing is written.
  pub retry_create :
      (create_review_decision event_id now req db).signal ≢ none
      → now' ≤ now + days 90
      → days 90 ≤ now'
      → let first = create_review_decision event_id now req db in
        create_review_decision event_id' now' req first.db
        ≡ answer
            (if ltb
                (recent db now' + 2)
                (2 * (recent_pair db req.reviewer_id req.subject_author_id now' + 1))
              then Response.independence_denied BlockedReason.independence_threshold_blocked
              else first.response)
            first.db
  unfolding decision_row
  retry_create sent soon late =
      let (s, made) = IsCreated-signal event_id now req db sent in
      let first = create_review_decision event_id now req db in
      let ne = check-ne db req.reviewer_id req.subject_author_id now s made.clears in
      let p = recent_pair db req.reviewer_id req.subject_author_id now' + 1 in
      let t = recent db now' + 2 in
      let verdict : check_reviewer_independence first.db req.reviewer_id req.subject_author_id now'
          ≡ judge (independence_status p t) =
        rw made.written (check-writes event_id now now' req db s soon late ne) in
      elim (Bool-cases (ltb t (2 * p))) [
        | inl above ↦ rw above (
            create_refused event_id' now' req first.db BlockedReason.independence_threshold_blocked
              made.valid (verdict ∙ judge_blocked p t (ground arith)))
        | inr below ↦ rw below (
            create_known event_id' now' req first.db (independence_status p t)
              (decision_row req s now) made.valid (verdict ∙ judge_complete p t (ground arith))
              (find_by_key_created made)
            ∙ rw (str_refl req.decision_id, made.answers) refl)
      ]
