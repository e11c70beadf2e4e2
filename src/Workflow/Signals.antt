-- ===== src/Workflow/Signals.antt =====
-- The signal handlers of `PermitCaseWorkflow`. Each runs beside `run`, from await to await.
use Prim.Native.String.{◌++◌}
use sps_v.Common.{◌+◌, String, Option, none, some}
use sps_v.Contracts.CaseState.{CaseState, emergency_hold}
use sps_v.Contracts.Enums.{ExternalStatusClass}
use sps_v.Contracts.Signals.{
  ReviewDecisionSignal, StatusEventSignal, EmergencyHoldRequest, EmergencyHoldExitRequest,
}
use sps_v.Contracts.Transition.{is_applied}
use sps_v.Workflow.{Call, Info, Self, Prog, ◌>>=◌, ◌>>◌, execute, read_self, assign}
use sps_v.Workflow.Ids.{transition_request_id, case_id_from_workflow_id}
use sps_v.Workflow.Parts.{own_case, fetch_snapshot, apply_transition, require, returned}

-- `review_decision`: the first decision stays.
abbrev pub keep_first : Self → ReviewDecisionSignal → Option ReviewDecisionSignal → Self
keep_first s signal none = record s { review_decision = some signal }
keep_first s signal (some first) = s

unfoldable pub review_decision : ReviewDecisionSignal → Prog (Unit {0})
review_decision signal = assign (λ s. keep_first s signal s.review_decision)

-- `ExternalStatusClass.value` of the inspections
abbrev inspection_status : ExternalStatusClass → String
inspection_status ExternalStatusClass.inspection_scheduled = "INSPECTION_SCHEDULED"
inspection_status ExternalStatusClass.inspection_passed = "INSPECTION_PASSED"
inspection_status _ = "INSPECTION_FAILED"

abbrev milestone_type : ExternalStatusClass → String
milestone_type ExternalStatusClass.inspection_passed = "FINAL"
milestone_type _ = "SCHEDULED"

abbrev ignore : {A : Type 0} → A → Prog (Unit {0})
ignore a = Prog.ret tt

module _ (signal : StatusEventSignal) where
  unfoldable pub file_correction : Prog (Unit {0})
  file_correction =
      execute (
        Call.persist_correction_task (record {
          correction_task_id = "CORRECTION-" ++ signal.event_id;
          case_id = signal.case_id;
          submission_attempt_id = signal.submission_attempt_id;
          status = "PENDING";
          summary = none;
          requested_at = none;
          due_at = none;
        }))
      >>= ignore

  unfoldable pub file_resubmission : Prog (Unit {0})
  file_resubmission =
      execute (
        Call.persist_resubmission_package (record {
          resubmission_package_id = "RESUBMISSION-" ++ signal.event_id;
          case_id = signal.case_id;
          submission_attempt_id = signal.submission_attempt_id;
          package_id = "PKG-PLACEHOLDER";
          package_version = "1.0.0";
          status = "REQUESTED";
          submitted_at = none;
        }))
      >>= ignore

  unfoldable pub file_approval : Prog (Unit {0})
  file_approval =
      execute (
        Call.persist_approval_record (record {
          approval_record_id = "APPROVAL-" ++ signal.event_id;
          case_id = signal.case_id;
          submission_attempt_id = signal.submission_attempt_id;
          decision = "APPROVED";
          authority = none;
          decided_at = none;
        }))
      >>= ignore

  unfoldable pub file_inspection : Prog (Unit {0})
  file_inspection =
      execute (
        Call.persist_inspection_milestone (record {
          inspection_milestone_id = "INSPECTION-" ++ signal.event_id;
          case_id = signal.case_id;
          submission_attempt_id = signal.submission_attempt_id;
          milestone_type = milestone_type signal.normalized_status;
          status = inspection_status signal.normalized_status;
          scheduled_for = none;
          completed_at = none;
        }))
      >>= ignore

  -- `_persist_status_event_artifact`
  unfoldable pub persist_status_event_artifact : ExternalStatusClass → Prog (Unit {0})
  persist_status_event_artifact ExternalStatusClass.comment_issued = file_correction
  persist_status_event_artifact ExternalStatusClass.resubmission_requested = file_resubmission
  persist_status_event_artifact ExternalStatusClass.approval_reported = file_approval
  persist_status_event_artifact ExternalStatusClass.approval_confirmed = file_approval
  persist_status_event_artifact ExternalStatusClass.approval_pending_inspection = file_approval
  persist_status_event_artifact ExternalStatusClass.approval_final = file_approval
  persist_status_event_artifact ExternalStatusClass.inspection_scheduled = file_inspection
  persist_status_event_artifact ExternalStatusClass.inspection_passed = file_inspection
  persist_status_event_artifact ExternalStatusClass.inspection_failed = file_inspection
  persist_status_event_artifact _ = Prog.ret tt

  unfoldable pub status_event : Prog (Unit {0})
  status_event = do
    assign (λ s. record s { status_event_signal = some signal })
    own_case
    persist_status_event_artifact signal.normalized_status

module _ (info : Info) where
  -- `_run_emergency_transition`
  unfoldable pub run_emergency_transition :
      (request_id : String) (from to : CaseState) → Prog (Unit {0})
  run_emergency_transition request_id from to = do
    result ← apply_transition info request_id from to none none
    require (is_applied result)

  -- `if self._case_id is None: ...`
  unfoldable pub ensure_case_id : Option String → Prog (Unit {0})
  ensure_case_id (some id) = Prog.ret tt
  ensure_case_id none = do
    id ← returned (case_id_from_workflow_id info.workflow_id)
    assign (λ s. record s { case_id = some id })

  unfoldable pub emergency_hold_entry : EmergencyHoldRequest → Prog (Unit {0})
  emergency_hold_entry payload = do
    s ← read_self
    ensure_case_id s.case_id
    execute (Call.validate_emergency_artifact payload.emergency_id)
    snapshot ← fetch_snapshot
    assign (λ t. record t { emergency_hold_entry_attempt = t.emergency_hold_entry_attempt + 1 })
    now ← read_self
    run_emergency_transition
        (transition_request_id info.workflow_id info.run_id "emergency_hold_entry"
          now.emergency_hold_entry_attempt)
        snapshot.case_state payload.target_state

  unfoldable pub emergency_hold_exit : EmergencyHoldExitRequest → Prog (Unit {0})
  emergency_hold_exit payload = do
    s ← read_self
    ensure_case_id s.case_id
    execute (Call.validate_reviewer_confirmation payload.reviewer_confirmation_id)
    assign (λ t. record t { emergency_hold_exit_attempt = t.emergency_hold_exit_attempt + 1 })
    now ← read_self
    run_emergency_transition
        (transition_request_id info.workflow_id info.run_id "emergency_hold_exit"
          now.emergency_hold_exit_attempt)
        emergency_hold payload.target_state
