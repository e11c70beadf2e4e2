-- ===== src/Guard/Spec.antt =====
-- What the transition guard is to permit, apart from how it finds out: the diagram of the case
-- states (`Edge`), and what each edge of it requires of the tables (`Needs`).
use Prim.Native.String.{◌++◌}
use sps_v.Common.{
  ℕ, ◌+◌, ◌≤◌, ◌<◌, String, ◌≡◌, ◌≢◌, ◌⊎◌, true, Option, none, some, [], ◌∷◌, ◌==◌, string_eq, find,
  filter, latest, elem, Exists,
}
use sps_v.Common.Time.{to_utc, days}
use sps_v.Contracts.CaseState.{
  CaseState, value, intake_pending, intake_complete, jurisdiction_complete, research_complete,
  compliance_complete, incentives_complete, document_complete, review_pending,
  approved_for_submission, submitted, comment_review_pending, correction_pending,
  resubmission_pending, manual_submission_required, emergency_hold,
}
use sps_v.Contracts.Enums.{ReviewDecisionOutcome}
use sps_v.Contracts.Transition.{StateTransitionRequest}
use sps_v.Db.{
  Database, ReviewDecision, OverrideArtifact, Project, RequirementSet, ManualFallbackPackage,
}
use sps_v.Guard.Branch.{Branch}

-- The edges on which a case can move.
pub data Edge : CaseState → CaseState → Branch → Type 0 where
  enter_hold : {from : CaseState} → Edge from emergency_hold Branch.enter_hold
  leave_hold :
      {to : CaseState}
      → to ≢ submitted
      → to ≢ emergency_hold
      → Edge emergency_hold to Branch.leave_hold
  review_gate : Edge review_pending approved_for_submission Branch.review_gate
  intake : Edge intake_pending intake_complete Branch.intake
  jurisdiction : Edge intake_complete jurisdiction_complete Branch.jurisdiction
  requirements : Edge jurisdiction_complete research_complete Branch.requirements
  compliance : Edge research_complete compliance_complete Branch.compliance
  incentives : Edge compliance_complete incentives_complete Branch.incentives
  document : Edge incentives_complete document_complete Branch.document
  manual_submission : Edge document_complete manual_submission_required Branch.manual_submission
  submission : Edge document_complete submitted Branch.submission
  comment_review : Edge submitted comment_review_pending Branch.comment_review
  correction : Edge comment_review_pending correction_pending Branch.correction
  resubmission : Edge correction_pending resubmission_pending Branch.resubmission
  resubmission_document : Edge resubmission_pending document_complete Branch.resubmission_document

module _ (req : StateTransitionRequest) (at : ℕ) (db : Database) where
  -- The request names a decision of its own case that does not block.
  pub record HasReview : Type 0 where
    pub review_id : String
    pub row : ReviewDecision
    pub named : req.required_review_id ≡ some review_id
    pub not_empty : review_id ≢ ""
    pub found : find (λ r. r.decision_id == review_id) db.review_decisions ≡ some row
    pub same_case : row.case_id ≡ req.case_id
    pub accepts : row.decision_outcome ≢ ReviewDecisionOutcome.block

  -- The request names an override of its own case that has not expired and covers the transition.
  pub record HasOverride : Type 0 where
    pub override_id : String
    pub row : OverrideArtifact
    pub named : req.override_id ≡ some override_id
    pub found : find (λ o. o.override_id == override_id) db.override_artifacts ≡ some row
    pub same_case : row.case_id ≡ req.case_id
    pub unexpired : at < to_utc row.expires_at
    pub in_scope :
        elem (value req.from_state ++ "->" ++ value req.to_state) row.affected_surfaces ≡ true

  abbrev pub HasBlocker : Type 0
  HasBlocker =
      Exists
        (λ c.
          (c.case_id ≡ req.case_id) × (c.blocking_effect ≡ true) × (c.resolution_status ≡ "OPEN"))
        db.contradiction_artifacts

  -- The newest fallback package, if there is one, has a confirmed proof bundle.
  abbrev pub IsProven : Option ManualFallbackPackage → Type 0
  IsProven none = Unit
  IsProven (some f) =
      (f.proof_bundle_state ≡ "CONFIRMED")
      × ((artifact : String) × (f.proof_bundle_artifact_id ≡ some artifact))

  abbrev pub Needs : Branch → Type 0
  Needs Branch.enter_hold = Unit
  Needs Branch.hold_to_submitted = ⊥
  Needs Branch.leave_hold = Unit
  Needs Branch.review_gate = HasReview × (HasOverride ⊎ ((req.override_id ≡ none) × (¬ HasBlocker)))
  Needs Branch.intake =
      (p : Project) × (filter (λ q. q.case_id == req.case_id) db.projects ≡ p ∷ [])
  Needs Branch.jurisdiction = Exists (λ r. r.case_id ≡ req.case_id) db.jurisdiction_resolutions
  Needs Branch.requirements =
      (r : RequirementSet) × (find (λ s. s.case_id == req.case_id) db.requirement_sets ≡ some r)
      × (r.freshness_state ≡ "FRESH")
  Needs Branch.compliance =
      (days 30 ≤ at)
      × Exists (λ e. (e.case_id ≡ req.case_id) × (at ≤ to_utc e.evaluated_at + days 30))
          db.compliance_evaluations
  Needs Branch.incentives =
      (days 3 ≤ at)
      × Exists (λ a. (a.case_id ≡ req.case_id) × (at ≤ to_utc a.assessed_at + days 3))
          db.incentive_assessments
  Needs Branch.document = Exists (λ p. p.case_id ≡ req.case_id) db.submission_packages
  Needs Branch.manual_submission = Exists (λ f. f.case_id ≡ req.case_id) db.manual_fallback_packages
  Needs Branch.submission = IsProven (
      latest (λ f. f.created_at)
        (filter (λ f. f.case_id == req.case_id) db.manual_fallback_packages))
  Needs Branch.comment_review = Unit
  Needs Branch.correction = Unit
  Needs Branch.resubmission = Unit
  Needs Branch.resubmission_document = Unit
  Needs Branch.unknown = ⊥

  -- The transition follows an edge whose requirements hold.
  abbrev pub Permits : Type 0
  Permits = (b : Branch) × Edge req.from_state req.to_state b × Needs b
