-- ===== src/Guard/Gates/Review.antt =====
-- The review gate passes exactly for an accepted review of the case, with no open blocking
-- contradiction or a valid override.
use sps_v.Common.{
  ℕ, ◌≡◌, ◌⊎◌, ◌↔◌, Bool, true, false, none, some, ◌==◌, string_eq, arith, eq_iff, find, is_some,
  inl, inr, Bool-cases, Option-cases, Exists-map, Exists-find, find_of_Exists, ◌&&◌,
}
use sps_v.Contracts.Transition.{StateTransitionRequest, StateTransitionResult, is_applied}
use sps_v.Assertions.{Registry}
use sps_v.Db.{Database, ContradictionArtifact}
use sps_v.Guard.Gates.{
  apply_at, validate_override, check_override, find_review, apply_review_gate,
  blocking_contradiction, review_branch,
}
use sps_v.Guard.Spec.{HasReview, HasOverride, HasBlocker}

module _ (registry : Registry) (req : StateTransitionRequest) (at : ℕ) (db : Database) where
  review_gate_sound : is_applied (apply_review_gate registry req at db) ≡ true → HasReview req at db
  unfolding apply_review_gate find_review
  review_gate_sound h = elim (Option-cases req.required_review_id) [
    | inl p ↦ absurd (ground arith)
    | inr (id, p) ↦ elim (Option-cases (find (λ r. r.decision_id == id) db.review_decisions)) [
      | inl q ↦ absurd (ground arith)
      | inr (row, q) ↦ record {
        review_id = id;
        row = row;
        named = p;
        not_empty = λ e. ground (arith, eq_iff id "");
        found = q;
        same_case = ground (arith, eq_iff id "", eq_iff row.case_id req.case_id);
        accepts = λ e. ground (arith, eq_iff id "");
      }
    ]
  ]

  review_gate_complete : HasReview req at db → apply_review_gate registry req at db ≡ apply_at at
  unfolding apply_review_gate find_review
  review_gate_complete h = ground (
    arith,
    h.named,
    h.found,
    eq_iff h.review_id "",
    eq_iff h.row.case_id req.case_id,
    h.accepts,
    h.not_empty,
  )

  override_sound :
      is_some req.override_id ≡ true
      → validate_override registry req at db req.override_id ≡ none
      → HasOverride req at db
  unfolding validate_override check_override
  override_sound h v = elim (Option-cases req.override_id) [
    | inl p ↦ absurd (ground arith)
    | inr (id, p) ↦ elim (Option-cases (find (λ o. o.override_id == id) db.override_artifacts)) [
      | inl q ↦ absurd (ground arith)
      | inr (row, q) ↦ record {
        override_id = id;
        row = row;
        named = p;
        found = q;
        same_case = ground (arith, eq_iff row.case_id req.case_id);
        unexpired = ground arith;
        in_scope = ground arith;
      }
    ]
  ]

  override_denies :
      (d : StateTransitionResult)
      → validate_override registry req at db req.override_id ≡ some d
      → is_applied d ≡ false
  unfolding validate_override check_override
  override_denies d v = ground arith

  override_complete :
      HasOverride req at db → validate_override registry req at db req.override_id ≡ none
  unfolding validate_override check_override
  override_complete h =
      ground (arith, h.named, h.found, eq_iff h.row.case_id req.case_id, h.unexpired, h.in_scope)

  -- An override that is named is accepted exactly if it covers the transition.
  pub validate_override_iff :
      is_some req.override_id ≡ true
      → (validate_override registry req at db req.override_id ≡ none) ↔ HasOverride req at db
  validate_override_iff named = (override_sound named, override_complete)

  blocks : ContradictionArtifact → Bool
  blocks c = c.case_id == req.case_id && (c.blocking_effect && c.resolution_status == "OPEN")

  contradiction_sound : blocking_contradiction registry req at db ≡ true → HasBlocker req at db
  unfolding blocking_contradiction
  contradiction_sound h =
      Exists-map
        (λ c k. ground (arith, eq_iff c.case_id req.case_id, eq_iff c.resolution_status "OPEN"))
        db.contradiction_artifacts (Exists-find _ db.contradiction_artifacts h)

  contradiction_complete : HasBlocker req at db → blocking_contradiction registry req at db ≡ true
  unfolding blocking_contradiction
  contradiction_complete h = find_of_Exists _ db.contradiction_artifacts (
      Exists-map
        (λ c k.
          ground
            (arith, eq_iff c.case_id req.case_id, eq_iff c.resolution_status "OPEN", k.0, k.1, k.2))
        db.contradiction_artifacts h)

  abbrev IsCleared : Type 0
  IsCleared = HasOverride req at db ⊎ ((req.override_id ≡ none) × (¬ HasBlocker req at db))

  pub review_branch_sound :
      is_applied (review_branch registry req at db) ≡ true → HasReview req at db × IsCleared
  unfolding review_branch
  review_branch_sound h = elim (Option-cases req.override_id) [
    | inr (id, p) ↦ elim (Option-cases (validate_override registry req at db req.override_id)) [
      | inl v ↦ (review_gate_sound (ground arith), inl (override_sound (ground arith) v))
      | inr (d, v) ↦ absurd (ground (arith, override_denies d v))
    ]
    | inl p ↦ elim (Bool-cases (blocking_contradiction registry req at db)) [
      | inl b ↦ absurd (ground arith)
      | inr b ↦ (review_gate_sound (ground arith), inr (p, λ x. cc (contradiction_complete x)))
    ]
  ]

  pub review_branch_complete :
      HasReview req at db → IsCleared → review_branch registry req at db ≡ apply_at at
  unfolding review_branch
  review_branch_complete r (inl o) =
      ground (arith, review_gate_complete r, override_complete o, o.named)
  review_branch_complete r (inr (p, n)) =
      elim (Bool-cases (blocking_contradiction registry req at db)) [
        | inl b ↦ absurd (n (contradiction_sound b))
        | inr b ↦ ground (arith, review_gate_complete r)
      ]
