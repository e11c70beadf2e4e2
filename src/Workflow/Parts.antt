-- ===== src/Workflow/Parts.antt =====
-- The methods of `PermitCaseWorkflow` that its `run` is made of.
use Prim.Native.String.{◌++◌}
use sps_v.Common.{
  ℕ, String, Bool, true, false, Option, none, some, [], ◌==◌, if◌then◌else◌, Error, ok, err, Result,
}
use sps_v.Common.Time.{Datetime, aware, to_utc}
use sps_v.Contracts.CaseState.{
  CaseState, state_eq, compliance_complete, incentives_complete, document_complete,
}
use sps_v.Contracts.Enums.{ActorType, SubmissionAdapterOutcome}
use sps_v.Evidence.{PersistEvidenceRequest}
use sps_v.Contracts.Signals.{ReviewDecisionSignal}
use sps_v.Contracts.Transition.{StateTransitionRequest, StateTransitionResult, is_applied}
use sps_v.Cases.{PermitCaseStateSnapshot}
use sps_v.Submission.{SubmissionAdapterRequest}
use sps_v.Submission.Gates.{submission_target}
use sps_v.Workflow.{Call, Info, Prog, ◌>>=◌, ◌>>◌, execute, read_self, now, asserted}
use sps_v.Workflow.Ids.{
  transition_request_id, activity_request_id, submission_attempt_id_for_workflow,
  submission_attempt_idempotency_key,
}

pub record PermitCaseWorkflowResult : Type 0 where
  pub case_id : String
  pub correlation_id : String
  pub initial_request_id : String
  pub initial_result : StateTransitionResult
  pub review_decision_id : Option String
  pub review_signal : Option ReviewDecisionSignal
  pub final_request_id : String
  pub final_result : StateTransitionResult
  pub intake_request_id : Option String
  pub intake_result : Option StateTransitionResult

-- `self._case_id`, which every method asserts to be there.
abbrev pub own_case : Prog String
own_case = read_self >>= λ s. asserted s.case_id

abbrev pub fetch_snapshot : Prog PermitCaseStateSnapshot
fetch_snapshot = do case_id ← own_case; execute (Call.fetch_permit_case_state case_id)

-- `PermitCaseWorkflowResult(...)`; the model refuses a missing initial or final identifier or result.
abbrev workflow_result :
    (case_id correlation_id : String) (initial_request_id : Option String)
    (initial_result : Option StateTransitionResult) (final_request_id : Option String)
    (final_result : Option StateTransitionResult)
    → Result PermitCaseWorkflowResult
workflow_result case_id correlation_id (some ir) (some i) (some fr) (some f) = ok (record {
  case_id = case_id;
  correlation_id = correlation_id;
  initial_request_id = ir;
  initial_result = i;
  review_decision_id = none;
  review_signal = none;
  final_request_id = fr;
  final_result = f;
  intake_request_id = none;
  intake_result = none;
})
workflow_result case_id correlation_id _ _ _ _ = err Error.validation_error

abbrev pub returned : {A : Type 0} → Result A → Prog A
returned (ok a) = Prog.ret a
returned (err e) = Prog.raise e

-- `if not ok: raise RuntimeError`
abbrev pub require : Bool → Prog (Unit {0})
require true = Prog.ret tt
require false = Prog.raise Error.runtime_error

module _ (info : Info) where
  unfoldable pub correlation_id : String
  correlation_id = info.workflow_id ++ ":" ++ info.run_id

  unfoldable pub transition_request :
      (request_id case_id : String) (from to : CaseState) (causation_id review_id : Option String)
      → Datetime
      → StateTransitionRequest
  transition_request request_id case_id from to causation_id review_id t = record {
    request_id = request_id;
    case_id = case_id;
    from_state = from;
    to_state = to;
    actor_type = ActorType.system_guard;
    actor_id = "system-guard";
    correlation_id = correlation_id;
    causation_id = causation_id;
    required_review_id = review_id;
    required_evidence_ids = [];
    override_id = none;
    requested_at = aware (to_utc t);
    notes = none;
  }

  -- `_apply_transition`
  unfoldable pub apply_transition :
      (request_id : String) (from to : CaseState) (causation_id review_id : Option String)
      → Prog StateTransitionResult
  apply_transition request_id from to causation_id review_id = do
    case_id ← own_case
    t ← now
    execute (
        Call.apply_state_transition
          (transition_request request_id case_id from to causation_id review_id t))

  -- A transition that raises unless it is applied; it gives its request's identifier and its result.
  unfoldable pub advance :
      (name : String) (from to : CaseState) (causation_id : Option String)
      → Prog (String × StateTransitionResult)
  advance name from to causation_id = do
    let request_id = transition_request_id info.workflow_id info.run_id name 1
    result ← apply_transition request_id from to causation_id none
    require (is_applied result)
    Prog.ret (request_id, result)

-- The name of the transition that follows an attempt; a failed one has none.
abbrev submission_transition : SubmissionAdapterOutcome → Option String
submission_transition SubmissionAdapterOutcome.unsupported_workflow =
    some "document_complete_to_manual_submission_required"
submission_transition SubmissionAdapterOutcome.success = some "document_complete_to_submitted"
submission_transition SubmissionAdapterOutcome.failed = none

abbrev pub expected : {A : Type 0} → Option A → Prog A
expected none = Prog.raise Error.runtime_error
expected (some a) = Prog.ret a

-- What came before, or else this.
abbrev or_this :
    Option (String × StateTransitionResult)
    → String × StateTransitionResult
    → String × StateTransitionResult
or_this none p = p
or_this (some q) p = q

abbrev request_of : Option (String × StateTransitionResult) → Option String
request_of none = none
request_of (some (id, result)) = some id

module _ (info : Info) where
  unfoldable pub adapter_request : (case_id package_id : String) → SubmissionAdapterRequest
  adapter_request case_id package_id = record {
    request_id = activity_request_id info.workflow_id info.run_id "submission_adapter" 1;
    submission_attempt_id = submission_attempt_id_for_workflow info.workflow_id info.run_id 1;
    case_id = case_id;
    package_id = package_id;
    manifest_id = "MANIFEST-UNKNOWN";
    target_portal_family = "CITY_PORTAL_FAMILY_A";
    idempotency_key = submission_attempt_idempotency_key case_id 1;
    attempt_number = 1;
    correlation_id = correlation_id info;
  }

  -- A result of two transitions, which may be one.
  unfoldable pub finished :
      (first last : String × StateTransitionResult) → Prog PermitCaseWorkflowResult
  finished (first_id, first) (last_id, last) = do
    case_id ← own_case
    returned (
        workflow_result case_id (correlation_id info) (some first_id) (some first) (some last_id)
          (some last))

  -- The result of a run that makes no transition, which its model refuses.
  unfoldable pub idle : Prog PermitCaseWorkflowResult
  idle = do
    case_id ← own_case
    returned (workflow_result case_id (correlation_id info) none none none none)

  -- `_run_submission_step`
  unfoldable pub run_submission_step :
      (package_id : String)
      → Option (String × StateTransitionResult)
      → Prog PermitCaseWorkflowResult
  run_submission_step package_id initial = do
    case_id ← own_case
    adapter_result ←
        execute (Call.deterministic_submission_adapter (adapter_request case_id package_id))
    name ← expected (submission_transition adapter_result.outcome)
    to ← expected (submission_target adapter_result.outcome)
    last ← advance info name document_complete to (request_of initial)
    finished (or_this initial last) last

  -- `persist_submission_package`, for the given attempt.
  unfoldable pub persist_package : ℕ → Prog String
  persist_package attempt = do
    case_id ← own_case
    execute (
        Call.persist_submission_package (record {
          request_id =
              activity_request_id info.workflow_id info.run_id "persist_submission_package" attempt;
          case_id = case_id;
        }))

  unfoldable pub evidence_request : (activity_name case_id : String) → PersistEvidenceRequest
  evidence_request activity_name case_id = record {
    request_id = activity_request_id info.workflow_id info.run_id activity_name 1;
    case_id = case_id;
  }

  unfoldable pub assess_incentives : Option String → Prog (String × StateTransitionResult)
  assess_incentives causation_id = do
    case_id ← own_case
    execute (Call.persist_incentive_assessment (evidence_request "persist_incentives" case_id))
    advance info "compliance_complete_to_incentives_complete" compliance_complete
        incentives_complete causation_id

  -- The transition to DOCUMENT_COMPLETE, unless the persisted package has moved the case there.
  unfoldable pub complete_documents : CaseState → Prog (Option (String × StateTransitionResult))
  complete_documents state =
      let moved =
        advance info "incentives_complete_to_document_complete" incentives_complete
          document_complete none
        >>= λ p. Prog.ret (some p) in
      if state == document_complete then Prog.ret none else moved
