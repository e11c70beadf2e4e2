-- ===== src/Workflow/Run.antt =====
-- `PermitCaseWorkflow.run`.
use sps_v.Common.{String, Bool, true, false, Option, none, some, if◌then◌else◌, Error}
use sps_v.Contracts.CaseState.{
  CaseState, state_eq, intake_pending, intake_complete, jurisdiction_complete, research_complete,
  compliance_complete, incentives_complete, document_complete, review_pending,
  approved_for_submission, submitted, comment_review_pending, correction_pending,
  resubmission_pending,
}
use sps_v.Contracts.Enums.{EventType}
use sps_v.Contracts.Signals.{ReviewDecisionSignal}
use sps_v.Contracts.Transition.{StateTransitionResult, is_applied, event_type}
use sps_v.Workflow.{
  Call, Info, Prog, ◌>>=◌, ◌>>◌, execute, read_self, assign, wait_for_review, asserted,
}
use sps_v.Workflow.Ids.{transition_request_id}
use sps_v.Workflow.Parts.{
  PermitCaseWorkflowResult, own_case, fetch_snapshot, correlation_id, apply_transition, advance,
  require, expected, finished, idle, run_submission_step, persist_package, evidence_request,
  assess_incentives, complete_documents,
}

-- The name of the guarded transition.
unfoldable pub guarded : String
guarded = "review_pending_to_approved_for_submission"

module _ (info : Info) where
  -- The branches of `run`, by the state in which the case is found.
  unfoldable pub run_intake_pending : Prog PermitCaseWorkflowResult
  run_intake_pending = do
    (id, result) ←
        advance info "intake_pending_to_intake_complete" intake_pending intake_complete none
    case_id ← own_case
    Prog.ret (record {
      case_id = case_id;
      correlation_id = correlation_id info;
      initial_request_id = id;
      initial_result = result;
      review_decision_id = none;
      review_signal = none;
      final_request_id = id;
      final_result = result;
      intake_request_id = some id;
      intake_result = some result;
    })

  unfoldable pub run_intake_complete : Prog PermitCaseWorkflowResult
  run_intake_complete = do
    case_id ← own_case
    execute (
        Call.persist_jurisdiction_resolutions
          (evidence_request info "persist_jurisdiction" case_id))
    first ←
        advance info "intake_complete_to_jurisdiction_complete" intake_complete
          jurisdiction_complete none
    execute (Call.persist_requirement_sets (evidence_request info "persist_requirements" case_id))
    researched ←
        advance info "jurisdiction_complete_to_research_complete" jurisdiction_complete
          research_complete (some first.0)
    execute
        (Call.persist_compliance_evaluation (evidence_request info "persist_compliance" case_id))
    compliant ←
        advance info "research_complete_to_compliance_complete" research_complete
          compliance_complete (some researched.0)
    last ← assess_incentives info (some compliant.0)
    finished info first last

  unfoldable pub run_compliance_complete : Prog PermitCaseWorkflowResult
  run_compliance_complete = do last ← assess_incentives info none; finished info last last

  unfoldable pub run_incentives_complete : Prog PermitCaseWorkflowResult
  run_incentives_complete = do
    package_id ← persist_package info 1
    snapshot ← fetch_snapshot
    document ← complete_documents info snapshot.case_state
    run_submission_step info package_id document

  unfoldable pub run_document_complete : Prog PermitCaseWorkflowResult
  run_document_complete = do
    package_id ← persist_package info 1
    run_submission_step info package_id none

  unfoldable pub run_comment_review_pending : Prog PermitCaseWorkflowResult
  run_comment_review_pending = do
    last ←
        advance info "comment_review_pending_to_correction_pending" comment_review_pending
          correction_pending none
    finished info last last

  unfoldable pub run_resubmission_pending : Prog PermitCaseWorkflowResult
  run_resubmission_pending = do
    first ←
        advance info "resubmission_pending_to_document_complete" resubmission_pending
          document_complete none
    package_id ← persist_package info 2
    run_submission_step info package_id (some first)

  -- `initial_result.event_type != "APPROVAL_GATE_DENIED"`
  abbrev is_gate_denied : EventType → Bool
  is_gate_denied EventType.approval_gate_denied = true
  is_gate_denied _ = false

  unfoldable pub review_result :
      (case_id first_id last_id : String) (first last : StateTransitionResult)
      (decision_id : Option String) (signal : Option ReviewDecisionSignal)
      → PermitCaseWorkflowResult
  review_result case_id first_id last_id first last decision_id signal = record {
    case_id = case_id;
    correlation_id = correlation_id info;
    initial_request_id = first_id;
    initial_result = first;
    review_decision_id = decision_id;
    review_signal = signal;
    final_request_id = last_id;
    final_result = last;
    intake_request_id = none;
    intake_result = none;
  }

  -- The second attempt, with the decision that was signalled.
  unfoldable pub after_decision :
      (first_id : String) (first : StateTransitionResult)
      → ReviewDecisionSignal
      → Prog PermitCaseWorkflowResult
  after_decision first_id first signal = do
    let last_id = transition_request_id info.workflow_id info.run_id guarded 2
    decision_id ← expected signal.decision_id
    last ←
        apply_transition info last_id review_pending approved_for_submission (some first_id)
          (some decision_id)
    require (is_applied last)
    case_id ← own_case
    Prog.ret (review_result case_id first_id last_id first last (some decision_id) (some signal))

  -- `self._review_decision = review_signal`
  unfoldable pub keep_decision :
      (first_id : String) (first : StateTransitionResult)
      → ReviewDecisionSignal
      → Prog PermitCaseWorkflowResult
  keep_decision first_id first signal =
      assign (λ t. record t { review_decision = some signal })
      >> after_decision first_id first signal

  -- What follows the wait for a decision.
  unfoldable pub run_reviewed :
      (first_id : String) (first : StateTransitionResult) → Prog PermitCaseWorkflowResult
  run_reviewed first_id first = do
    s ← read_self
    asserted s.review_decision >>= keep_decision first_id first

  unfoldable pub run_review : Prog PermitCaseWorkflowResult
  run_review = do
    let first_id = transition_request_id info.workflow_id info.run_id guarded 1
    first ← apply_transition info first_id review_pending approved_for_submission none none
    case_id ← own_case
    let at_once = Prog.ret (review_result case_id first_id first_id first first none none)
    let after_review = wait_for_review >> run_reviewed first_id first
    let other = Prog.raise Error.runtime_error
    let denied = if is_gate_denied (event_type first) then after_review else other
    if is_applied first then at_once else denied

  -- The branch that `run` takes for a case in the given state.
  unfoldable pub run_at : CaseState → Prog PermitCaseWorkflowResult
  run_at intake_pending = run_intake_pending
  run_at intake_complete = run_intake_complete
  run_at compliance_complete = run_compliance_complete
  run_at incentives_complete = run_incentives_complete
  run_at document_complete = run_document_complete
  run_at submitted = idle info
  run_at comment_review_pending = run_comment_review_pending
  run_at correction_pending = idle info
  run_at resubmission_pending = run_resubmission_pending
  run_at _ = run_review

  -- `run`, for the case of its input.
  unfoldable pub run : String → Prog PermitCaseWorkflowResult
  run case_id = do
    assign (λ s. record s { case_id = some case_id })
    execute (Call.ensure_permit_case_exists case_id)
    snapshot ← fetch_snapshot
    run_at snapshot.case_state
