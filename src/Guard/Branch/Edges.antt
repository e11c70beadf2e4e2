-- ===== src/Guard/Branch/Edges.antt =====
-- The `elif` chain takes the branch of each edge, and takes a branch that can move a case only
-- along an edge.
use sps_v.Common.{◌≡◌, refl, arith}
use sps_v.Contracts.CaseState.{
  CaseState, state_beq_iff, intake_pending, intake_complete, jurisdiction_complete,
  research_complete, compliance_complete, incentives_complete, document_complete, review_pending,
  approved_for_submission, submitted, comment_review_pending, correction_pending,
  resubmission_pending, manual_submission_required, emergency_hold,
}
use sps_v.Guard.Branch.{Branch, branch}
use sps_v.Guard.Spec.{Edge}

-- The branches that can move a case.
abbrev pub Moves : Branch → Type 0
Moves Branch.hold_to_submitted = ⊥
Moves Branch.unknown = ⊥
Moves _ = Unit

pub branch-Edge : (f t : CaseState) → Moves (branch f t) → Edge f t (branch f t)
unfolding branch
branch-Edge review_pending approved_for_submission m = Edge.review_gate
branch-Edge intake_pending intake_complete m = Edge.intake
branch-Edge intake_complete jurisdiction_complete m = Edge.jurisdiction
branch-Edge jurisdiction_complete research_complete m = Edge.requirements
branch-Edge research_complete compliance_complete m = Edge.compliance
branch-Edge compliance_complete incentives_complete m = Edge.incentives
branch-Edge incentives_complete document_complete m = Edge.document
branch-Edge document_complete manual_submission_required m = Edge.manual_submission
branch-Edge document_complete submitted m = Edge.submission
branch-Edge submitted comment_review_pending m = Edge.comment_review
branch-Edge comment_review_pending correction_pending m = Edge.correction
branch-Edge correction_pending resubmission_pending m = Edge.resubmission
branch-Edge resubmission_pending document_complete m = Edge.resubmission_document
branch-Edge f emergency_hold m = Edge.enter_hold
branch-Edge emergency_hold submitted m = absurd m
branch-Edge emergency_hold t m = Edge.leave_hold (λ e. cc) (λ e. cc)
branch-Edge _ _ m = absurd m

pub branch_of_Edge : {f t : CaseState} {b : Branch} → Edge f t b → branch f t ≡ b
unfolding branch
branch_of_Edge Edge.enter_hold = refl
branch_of_Edge (Edge.leave_hold {to = t} ns nh) =
    ground (arith, state_beq_iff t submitted, state_beq_iff t emergency_hold)
branch_of_Edge Edge.review_gate = refl
branch_of_Edge Edge.intake = refl
branch_of_Edge Edge.jurisdiction = refl
branch_of_Edge Edge.requirements = refl
branch_of_Edge Edge.compliance = refl
branch_of_Edge Edge.incentives = refl
branch_of_Edge Edge.document = refl
branch_of_Edge Edge.manual_submission = refl
branch_of_Edge Edge.submission = refl
branch_of_Edge Edge.comment_review = refl
branch_of_Edge Edge.correction = refl
branch_of_Edge Edge.resubmission = refl
branch_of_Edge Edge.resubmission_document = refl
