-- ===== src/Reviews/Decisions/Effects.antt =====
-- What one call of `create_review_decision` does: it refuses, it replays, or it inserts.
use sps_v.Common.{
  ℕ, String, ◌≡◌, ◌≢◌, ◌⊎◌, refl, ◌∙◌, ap, true, false, none, some, List, [], ◌∷◌, ◌||◌, ◌==◌,
  string_eq, arith, Bool-cases, Option-cases, inl, inr, is_some, find, find-append_new, str_refl,
}
use sps_v.Contracts.Signals.{review_signal}
use sps_v.Contracts.Enums.{ReviewDecisionOutcome, ReviewerIndependenceStatus}
use sps_v.Db.{Database, DissentArtifact}
use sps_v.Reviews.Independence.{
  BlockedReason, Verdict, cleared, refused, check_reviewer_independence,
}
use sps_v.Reviews.Decisions.{
  CreateReviewDecisionRequest, Response, Reply, row_to_response, is_valid_request, is_dissent,
  dissent_id, decision_row, dissent_row, violates, writes, find_by_key, record_decision,
  create_review_decision, get_review_decision,
}

-- The call inserted the decision, with this status.
pub record IsCreated (event_id : String) (now : ℕ) (req : CreateReviewDecisionRequest)
    (db : Database) (status : ReviewerIndependenceStatus) (reply : Reply) : Type 0 where
  pub valid : is_valid_request req ≡ true
  pub clears :
      check_reviewer_independence db req.reviewer_id req.subject_author_id now ≡ cleared status
  pub new_key : find_by_key req db ≡ none
  pub free : violates event_id req db ≡ false
  pub answers : reply.response ≡ Response.decided (row_to_response (decision_row req status now))
  pub written : reply.db ≡ writes event_id req status now db
  pub announces : reply.signal ≡ some (review_signal req.decision_id req.outcome req.reviewer_id)

pub Verdict-cases :
    (v : Verdict)
    → ((b : BlockedReason) × (v ≡ refused b)) ⊎ ((s : ReviewerIndependenceStatus) × (v ≡ cleared s))
Verdict-cases (refused b) = inl (b, refl)
Verdict-cases (cleared s) = inr (s, refl)

module _ (event_id : String) (now : ℕ) (req : CreateReviewDecisionRequest) (db : Database) where
  -- Every call either leaves the database as it is and sends no signal, or inserts the decision with
  -- what belongs to it, answers with it, and signals it to the workflow.
  pub create_review_decision_cases :
      let reply = create_review_decision event_id now req db in
      ((reply.db ≡ db) × (reply.signal ≡ none))
      ⊎ ((status : ReviewerIndependenceStatus) × IsCreated event_id now req db status reply)
  unfolding create_review_decision record_decision
  create_review_decision_cases = elim (Bool-cases (is_valid_request req)) [
    | inr bad ↦ inl (rw bad, rw bad)
    | inl valid ↦
        elim (Verdict-cases
          (check_reviewer_independence db req.reviewer_id req.subject_author_id now)) [
            | inl (b, refuses) ↦ inl (ground arith, ground arith)
            | inr (s, clears) ↦ elim (Option-cases (find_by_key req db)) [
              | inr (row, old) ↦ elim (Bool-cases (row.decision_id == req.decision_id)) [
                | inl same ↦ inl (ground arith, ground arith)
                | inr other ↦ inl (ground arith, ground arith)
              ]
              | inl new ↦ elim (Bool-cases (violates event_id req db)) [
                | inl clash ↦ inl (ground arith, ground arith)
                | inr free ↦ inr (
                  s,
                  record {
                    valid = valid;
                    clears = clears;
                    new_key = new;
                    free = free;
                    answers = ground arith;
                    written = ground arith;
                    announces = ground arith;
                  },
                )
              ]
            ]
          ]
  ]

  -- A call that sends a signal has inserted the decision.
  pub IsCreated-signal :
      let reply = create_review_decision event_id now req db in
      reply.signal ≢ none
      → (status : ReviewerIndependenceStatus) × IsCreated event_id now req db status reply
  IsCreated-signal sent = elim create_review_decision_cases [
    | inl quiet ↦ absurd (sent quiet.1)
    | inr made ↦ made
  ]

no_dissent :
    (id review_id : String) (ds : List DissentArtifact)
    → is_some (find (λ d. d.dissent_id == id || d.linked_review_id == review_id) ds) ≡ false
    → find (λ d. d.dissent_id == id) ds ≡ none
unfolding find
no_dissent id review_id [] h = refl
no_dissent id review_id (d ∷ ds) h = ground (arith, no_dissent id review_id ds)

module _ {event_id : String} {now : ℕ} {req : CreateReviewDecisionRequest} {db : Database}
    {status : ReviewerIndependenceStatus} {reply : Reply}
    (made : IsCreated event_id now req db status reply) where
  pub find_by_key_created : find_by_key req reply.db ≡ some (decision_row req status now)
  unfolding find_by_key writes decision_row
  find_by_key_created =
      ap (λ (d : Database). find (λ r. r.idempotency_key == req.idempotency_key) d.review_decisions)
        made.written
      ∙ find-append_new (λ r. r.idempotency_key == req.idempotency_key) db.review_decisions
          (decision_row req status now) made.new_key (str_refl req.idempotency_key)

  pub find_created :
      find (λ r. r.decision_id == req.decision_id) reply.db.review_decisions
      ≡ some (decision_row req status now)
  unfolding writes decision_row violates
  find_created =
      ap (λ (d : Database). find (λ r. r.decision_id == req.decision_id) d.review_decisions)
        made.written
      ∙ find-append_new (λ r. r.decision_id == req.decision_id) db.review_decisions
          (decision_row req status now) (ground (arith, made.free)) (str_refl req.decision_id)

  -- With a dissent, its row is found under the identifier that the response names.
  pub find_dissent_created :
      req.outcome ≡ ReviewDecisionOutcome.accept_with_dissent
      → find (λ d. d.dissent_id == dissent_id req.decision_id) reply.db.dissent_artifacts
        ≡ some (dissent_row req now)
  unfolding writes dissent_row violates
  find_dissent_created dissents =
      let free = made.free in
      let is : is_dissent req.outcome ≡ true = ap is_dissent dissents in
      let new =
        no_dissent (dissent_id req.decision_id) req.decision_id db.dissent_artifacts
          (ground arith) in
      rw (made.written, dissents)
        (find-append_new (λ d. d.dissent_id == dissent_id req.decision_id) db.dissent_artifacts
          (dissent_row req now) new (str_refl (dissent_id req.decision_id)))

-- A decision that a call has inserted is what the endpoint that reads decisions then answers, with
-- the same response.
pub get-create :
    (event_id : String) (now : ℕ) (req : CreateReviewDecisionRequest) (db : Database)
    → let reply = create_review_decision event_id now req db in
      reply.signal ≢ none → get_review_decision req.decision_id reply.db ≡ reply.response
unfolding get_review_decision
get-create event_id now req db sent =
    let (s, made) = IsCreated-signal event_id now req db sent in
    ground (arith, find_created made, made.answers)
