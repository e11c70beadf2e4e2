-- ===== src/Guard/Branch.antt =====
-- The conditions of the `elif` chain on `req.from_state` and `req.to_state`, in its order.
pub mod Edges
use sps_v.Common.{◌&&◌, not, ◌==◌, if◌then◌else◌}
use sps_v.Contracts.CaseState.{
  CaseState, state_eq, intake_pending, intake_complete, jurisdiction_complete, research_complete,
  compliance_complete, incentives_complete, document_complete, review_pending,
  approved_for_submission, submitted, comment_review_pending, correction_pending,
  resubmission_pending, manual_submission_required, emergency_hold,
}

pub data Branch : Type 0 where
  enter_hold hold_to_submitted leave_hold review_gate intake jurisdiction requirements : Branch
  compliance incentives document manual_submission submission comment_review : Branch
  correction resubmission resubmission_document unknown : Branch

unfoldable pub branch : CaseState → CaseState → Branch
branch from to =
    if to == emergency_hold
    then Branch.enter_hold
    else if from == emergency_hold && to == submitted
    then Branch.hold_to_submitted
    else if from == emergency_hold && not (to == emergency_hold)
    then Branch.leave_hold
    else if from == review_pending && to == approved_for_submission
    then Branch.review_gate
    else if from == intake_pending && to == intake_complete
    then Branch.intake
    else if from == intake_complete && to == jurisdiction_complete
    then Branch.jurisdiction
    else if from == jurisdiction_complete && to == research_complete
    then Branch.requirements
    else if from == research_complete && to == compliance_complete
    then Branch.compliance
    else if from == compliance_complete && to == incentives_complete
    then Branch.incentives
    else if from == incentives_complete && to == document_complete
    then Branch.document
    else if from == document_complete && to == manual_submission_required
    then Branch.manual_submission
    else if from == document_complete && to == submitted
    then Branch.submission
    else if from == submitted && to == comment_review_pending
    then Branch.comment_review
    else if from == comment_review_pending && to == correction_pending
    then Branch.correction
    else if from == correction_pending && to == resubmission_pending
    then Branch.resubmission
    else if from == resubmission_pending && to == document_complete
    then Branch.resubmission_document
    else Branch.unknown
