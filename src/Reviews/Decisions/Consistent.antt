-- ===== src/Reviews/Decisions/Consistent.antt =====
-- The invariant of the review tables: unique keys, independent reviewers, and a dissent artifact for
-- every decision that was accepted with dissent.
use sps_v.Common.{
  ℕ, String, ◌≡◌, ◌≢◌, refl, subst, true, false, none, some, List, [], ◌∷◌, ◌++◌, ◌==◌, string_eq,
  arith, is_some, find, inl, inr, Bool-cases, str_refl, Option-cases, find-append_new,
  find-append_old, All, All-append, All-map, Unique, Unique-append,
}
use sps_v.Contracts.Enums.{ReviewerIndependenceStatus}
use sps_v.Db.{Database, ReviewDecision, DissentArtifact}
use sps_v.Reviews.Independence.Policy.{check-ne}
use sps_v.Reviews.Decisions.Effects.{create_review_decision_cases}
use sps_v.Reviews.Decisions.{
  CreateReviewDecisionRequest, is_dissent, decision_row, dissent_row, violates, writes, find_by_key,
  create_review_decision,
}

-- The decision's dissent artifact is there if it needs one.
abbrev HasDissent : List DissentArtifact → ReviewDecision → Type 0
HasDissent dissents r =
    is_dissent r.decision_outcome ≡ true
    → is_some (find (λ d. d.linked_review_id == r.decision_id) dissents) ≡ true

pub record IsConsistent (db : Database) : Type 0 where
  pub unique_ids : Unique (λ (r : ReviewDecision). r.decision_id) db.review_decisions
  pub unique_keys : Unique (λ (r : ReviewDecision). r.idempotency_key) db.review_decisions
  pub independent :
      All (λ (r : ReviewDecision). r.subject_author_id ≢ some r.reviewer_id) db.review_decisions
  pub dissents : All (HasDissent db.dissent_artifacts) db.review_decisions

HasDissent-append :
    (dissents : List DissentArtifact) (d : DissentArtifact) (r : ReviewDecision)
    → HasDissent dissents r
    → HasDissent (dissents ++ d ∷ []) r
HasDissent-append dissents d r h e =
    elim (Option-cases (find (λ x. x.linked_review_id == r.decision_id) dissents)) [
      | inl missing ↦ absurd (ground (arith, h e))
      | inr (x, found) ↦
          rw (find-append_old (λ y. y.linked_review_id == r.decision_id) dissents (d ∷ []) x found)
            refl
    ]

HasDissent-new :
    (dissents : List DissentArtifact) (d : DissentArtifact)
    → is_some (find (λ x. x.linked_review_id == d.linked_review_id) (dissents ++ d ∷ [])) ≡ true
HasDissent-new dissents d =
    elim (Option-cases (find (λ x. x.linked_review_id == d.linked_review_id) dissents)) [
      | inl missing ↦
          rw
            (find-append_new (λ x. x.linked_review_id == d.linked_review_id) dissents d missing
              (str_refl d.linked_review_id))
            refl
      | inr (x, found) ↦
          rw
            (find-append_old (λ x. x.linked_review_id == d.linked_review_id) dissents (d ∷ []) x
              found)
            refl
    ]

module _ (event_id : String) (req : CreateReviewDecisionRequest)
    (status : ReviewerIndependenceStatus) (now : ℕ) (db : Database)
    (free : violates event_id req db ≡ false) where
  writes-dissents :
      All (HasDissent db.dissent_artifacts) db.review_decisions
      → All
          (HasDissent (writes event_id req status now db).dissent_artifacts)
          (writes event_id req status now db).review_decisions
  unfolding writes decision_row dissent_row
  writes-dissents h =
      let rows = (writes event_id req status now db).review_decisions in
      let longer = db.dissent_artifacts ++ dissent_row req now ∷ [] in
      elim (Bool-cases (is_dissent req.outcome)) [
        | inr plain ↦
            subst (λ ds. All (HasDissent ds) rows) (rw plain refl)
              (All-append (HasDissent db.dissent_artifacts) db.review_decisions
                (decision_row req status now) h (λ e. absurd (ground arith)))
        | inl dissent ↦
            subst (λ ds. All (HasDissent ds) rows) (rw dissent refl)
              (All-append (HasDissent longer) db.review_decisions (decision_row req status now)
                (All-map (HasDissent db.dissent_artifacts) (HasDissent longer)
                  (HasDissent-append db.dissent_artifacts (dissent_row req now)) db.review_decisions
                  h)
                (λ e. HasDissent-new db.dissent_artifacts (dissent_row req now)))
      ]

  writes-IsConsistent :
      req.reviewer_id ≢ req.subject_author_id
      → find_by_key req db ≡ none
      → IsConsistent db
      → IsConsistent (writes event_id req status now db)
  unfolding writes decision_row violates find_by_key
  writes-IsConsistent ne new c = record {
    unique_ids =
        Unique-append (λ r. r.decision_id) db.review_decisions (decision_row req status now)
          c.unique_ids (ground arith);
    unique_keys =
        Unique-append (λ r. r.idempotency_key) db.review_decisions (decision_row req status now)
          c.unique_keys (rw new refl);
    independent =
        All-append (λ r. r.subject_author_id ≢ some r.reviewer_id) db.review_decisions
          (decision_row req status now) c.independent (λ e. ne (cc));
    dissents = writes-dissents c.dissents;
  }

-- The endpoint, however it answers, keeps the review tables consistent: no two decisions share an
-- identifier or an idempotency key, nobody has reviewed their own work, and every decision that was
-- accepted with dissent has its dissent artifact.
pub create-IsConsistent :
    (event_id : String) (now : ℕ) (req : CreateReviewDecisionRequest) (db : Database)
    → IsConsistent db
    → IsConsistent (create_review_decision event_id now req db).db
create-IsConsistent event_id now req db c =
    elim (create_review_decision_cases event_id now req db) [
      | inl same ↦ rw same.0 c
      | inr (s, made) ↦ rw made.written (
          writes-IsConsistent event_id req s now db made.free
            (check-ne db req.reviewer_id req.subject_author_id now s made.clears) made.new_key c)
    ]
