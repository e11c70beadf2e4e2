-- ===== src/Guard/Gates.antt =====
-- The bodies of the branches: each reads the session's tables and answers with a result. The code
-- assigns `case.case_state` exactly where it builds an applied result; `Apply` stages that write.
pub mod Errors
pub mod Exact
pub mod Review
use Prim.Native.String.{◌++◌}
use sps_v.Common.{
  ℕ, ◌-◌, String, Bool, true, false, not, ◌&&◌, ◌||◌, Option, none, some, List, [], ◌∷◌, ◌==◌,
  string_eq, if◌then◌else◌, ltb, leb, is_some, find, filter, latest, elem, Result, ok, err, Error,
  ◌>>=◌,
}
use sps_v.Common.Time.{to_utc, days}
use sps_v.Contracts.CaseState.{value}
use sps_v.Contracts.Enums.{ReviewDecisionOutcome, EventType, DenialReason}
use sps_v.Contracts.Transition.{StateTransitionRequest, StateTransitionResult, applied, denied}
use sps_v.Assertions.{Registry, get_normalized_business_invariants}
use sps_v.Db.{Database, OverrideArtifact, ReviewDecision, RequirementSet, ManualFallbackPackage}
use sps_v.Guard.Branch.{Branch}

abbrev assertion_review_gate : String
assertion_review_gate = "INV-SPS-STATE-002"

abbrev assertion_contradiction : String
assertion_contradiction = "INV-SPS-CONTRA-001"

abbrev assertion_override : String
assertion_override = "INV-SPS-EMERG-001"

abbrev assertion_requirements : String
assertion_requirements = "INV-SPS-RULE-001"

abbrev assertion_compliance : String
assertion_compliance = "INV-SPS-COMP-001"

abbrev assertion_incentives : String
assertion_incentives = "INV-SPS-INC-001"

-- `AppliedStateTransitionResult(event_type=_EVENT_CASE_STATE_CHANGED, applied_at=at)`
abbrev pub apply_at : ℕ → StateTransitionResult
apply_at at = applied (record { event_type = EventType.case_state_changed; applied_at = at })

-- `_deny`
abbrev pub deny :
    ℕ → EventType → DenialReason → Option String → Option (List String) → StateTransitionResult
deny denied_at event reason assertion invariants = denied (record {
  event_type = event;
  denied_at = denied_at;
  denial_reason = reason;
  guard_assertion_id = assertion;
  normalized_business_invariants = invariants;
})

-- `_ALLOWED_REVIEW_OUTCOMES`
abbrev pub is_allowed_outcome : ReviewDecisionOutcome → Bool
is_allowed_outcome ReviewDecisionOutcome.block = false
is_allowed_outcome _ = true

-- `timedelta` cannot take a `datetime` below `datetime.min`.
pub minus : ℕ → ℕ → Result ℕ
minus at delta = if ltb at delta then err Error.overflow_error else ok (at - delta)

module _ (registry : Registry) (req : StateTransitionRequest) (at : ℕ) (db : Database) where
  -- A denial that names a guard assertion and its invariants.
  abbrev deny_by : String → EventType → DenialReason → StateTransitionResult
  deny_by assertion event reason =
      deny at event reason (some assertion)
        (some (get_normalized_business_invariants registry assertion))

  abbrev deny_plain : EventType → DenialReason → StateTransitionResult
  deny_plain event reason = deny at event reason none none

  -- `_deny_override`
  abbrev deny_override : DenialReason → Option StateTransitionResult
  deny_override reason = some (deny_by assertion_override EventType.override_denied reason)

  -- The checks of `_validate_override` on the row that was found; `none` accepts it.
  pub check_override : OverrideArtifact → Option StateTransitionResult
  check_override override =
      if not (override.case_id == req.case_id)
      then deny_override DenialReason.missing
      else if leb (to_utc override.expires_at) at
      then deny_override DenialReason.expired
      else if not
          (elem (value req.from_state ++ "->" ++ value req.to_state) override.affected_surfaces)
      then deny_override DenialReason.out_of_scope
      else none

  pub validate_override : Option String → Option StateTransitionResult
  validate_override none = none
  validate_override (some override_id) =
      elim (find (λ o. o.override_id == override_id) db.override_artifacts) [
        | none ↦ deny_override DenialReason.missing
        | some override ↦ check_override override
      ]

  -- `session.get(ReviewDecision, review_id) if review_id else None`
  unfoldable pub find_review : Option String → Option ReviewDecision
  find_review none = none
  find_review (some review_id) =
      if review_id == "" then none else find (λ r. r.decision_id == review_id) db.review_decisions

  abbrev accepts_review : Option ReviewDecision → Bool
  accepts_review none = false
  accepts_review (some review) =
      review.case_id == req.case_id && is_allowed_outcome review.decision_outcome

  -- `_apply_review_gate`
  unfoldable pub apply_review_gate : StateTransitionResult
  apply_review_gate =
      if accepts_review (find_review req.required_review_id)
      then apply_at at
      else deny_by assertion_review_gate EventType.approval_gate_denied
          DenialReason.review_decision_required

  unfoldable pub blocking_contradiction : Bool
  blocking_contradiction = is_some (
      find (λ c. c.case_id == req.case_id && (c.blocking_effect && c.resolution_status == "OPEN"))
        db.contradiction_artifacts)

  -- REVIEW_PENDING to APPROVED_FOR_SUBMISSION.
  unfoldable pub review_branch : StateTransitionResult
  review_branch =
      if is_some req.override_id
      then elim (validate_override req.override_id) [
        | some denial ↦ denial
        | none ↦ apply_review_gate
      ]
      else if blocking_contradiction
      then deny_by assertion_contradiction EventType.contradiction_advance_denied
          DenialReason.blocking_contradiction_unresolved
      else apply_review_gate

  -- `query(Project).filter(...).one_or_none()` and the project requirement.
  pub intake_branch : Result StateTransitionResult
  intake_branch = elim (filter (λ p. p.case_id == req.case_id) db.projects) [
    | [] ↦ ok (deny_plain EventType.intake_project_denied DenialReason.project_required)
    | project ∷ [] ↦ ok (apply_at at)
    | project ∷ other ∷ rest ↦ err Error.multiple_results_found
  ]

  pub jurisdiction_branch : StateTransitionResult
  jurisdiction_branch =
      if is_some (find (λ r. r.case_id == req.case_id) db.jurisdiction_resolutions)
      then apply_at at
      else deny_plain EventType.jurisdiction_required_denied
          DenialReason.jurisdiction_resolution_required

  abbrev check_requirements : Option RequirementSet → StateTransitionResult
  check_requirements none =
      deny_by assertion_requirements EventType.requirements_required_denied
        DenialReason.requirement_set_required
  check_requirements (some requirement_set) =
      if not (requirement_set.freshness_state == "FRESH")
      then deny_by assertion_requirements EventType.requirements_freshness_denied
          DenialReason.requirement_set_stale
      else apply_at at

  pub requirements_branch : StateTransitionResult
  requirements_branch =
      check_requirements (find (λ r. r.case_id == req.case_id) db.requirement_sets)

  -- The newest evaluation must not be older than 30 days.
  pub compliance_branch : Result StateTransitionResult
  unfolding minus
  compliance_branch =
      elim (latest (λ e. to_utc e.evaluated_at)
        (filter (λ e. e.case_id == req.case_id) db.compliance_evaluations)) [
          | none ↦ ok (
              deny_by assertion_compliance EventType.compliance_required_denied
                DenialReason.compliance_evaluation_required)
          | some evaluation ↦ minus at (days 30) >>= λ freshness_deadline. ok (
              if ltb (to_utc evaluation.evaluated_at) freshness_deadline
              then deny_by assertion_compliance EventType.compliance_freshness_denied
                  DenialReason.compliance_evaluation_stale
              else apply_at at)
        ]

  -- The newest assessment must not be older than 3 days.
  pub incentives_branch : Result StateTransitionResult
  unfolding minus
  incentives_branch =
      elim (latest (λ a. to_utc a.assessed_at)
        (filter (λ a. a.case_id == req.case_id) db.incentive_assessments)) [
          | none ↦ ok (
              deny_by assertion_incentives EventType.incentives_required_denied
                DenialReason.incentive_assessment_required)
          | some assessment ↦ minus at (days 3) >>= λ freshness_deadline. ok (
              if ltb (to_utc assessment.assessed_at) freshness_deadline
              then deny_by assertion_incentives EventType.incentives_freshness_denied
                  DenialReason.incentive_assessment_stale
              else apply_at at)
        ]

  pub document_branch : StateTransitionResult
  document_branch =
      if is_some (find (λ p. p.case_id == req.case_id) db.submission_packages)
      then apply_at at
      else deny_plain EventType.document_package_required_denied
          DenialReason.submission_package_required

  abbrev newest_fallback : Option ManualFallbackPackage
  newest_fallback =
      latest (λ f. f.created_at)
        (filter (λ f. f.case_id == req.case_id) db.manual_fallback_packages)

  pub manual_submission_branch : StateTransitionResult
  manual_submission_branch =
      if is_some newest_fallback
      then apply_at at
      else deny_plain EventType.manual_submission_required_denied
          DenialReason.manual_fallback_required

  abbrev check_proof : Option ManualFallbackPackage → StateTransitionResult
  check_proof none = apply_at at
  check_proof (some fallback) =
      if not (fallback.proof_bundle_state == "CONFIRMED")
        || not (is_some fallback.proof_bundle_artifact_id)
      then deny_plain EventType.proof_bundle_required_denied DenialReason.proof_bundle_required
      else apply_at at

  -- Without a fallback package a submission is free; with one its proof bundle is confirmed.
  pub submission_branch : StateTransitionResult
  submission_branch = check_proof newest_fallback

  -- The result of the branch that the transition takes.
  unfoldable pub run_branch : Branch → Result StateTransitionResult
  run_branch Branch.enter_hold = ok (apply_at at)
  run_branch Branch.hold_to_submitted =
      ok (deny_plain EventType.state_transition_denied DenialReason.forbidden_transition)
  run_branch Branch.leave_hold = ok (apply_at at)
  run_branch Branch.review_gate = ok review_branch
  run_branch Branch.intake = intake_branch
  run_branch Branch.jurisdiction = ok jurisdiction_branch
  run_branch Branch.requirements = ok requirements_branch
  run_branch Branch.compliance = compliance_branch
  run_branch Branch.incentives = incentives_branch
  run_branch Branch.document = ok document_branch
  run_branch Branch.manual_submission = ok manual_submission_branch
  run_branch Branch.submission = ok submission_branch
  run_branch Branch.comment_review = ok (apply_at at)
  run_branch Branch.correction = ok (apply_at at)
  run_branch Branch.resubmission = ok (apply_at at)
  run_branch Branch.resubmission_document = ok (apply_at at)
  run_branch Branch.unknown =
      ok (deny_plain EventType.state_transition_denied DenialReason.unknown_transition)
