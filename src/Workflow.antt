-- ===== src/Workflow.antt =====
-- The workflow of src/sps/workflows/permit_case/workflow.py as a program: a tree of the activities
-- that it calls, of its reads and writes of its own attributes, and of its one wait.
pub mod Ids
pub mod Parts
pub mod Run
pub mod Signals
pub mod Tame
pub mod Threads
pub mod Decision
pub mod Perform
pub mod Steps
pub mod Refines
pub mod Review
pub mod Samples
mod Examples
use sps_v.Common.{
  ℕ, String, Bool, true, false, Option, none, some, List, ◌≡◌, refl, Result, ok, err, Error,
  is_some,
}
use sps_v.Common.Time.{Datetime}
use sps_v.Contracts.Signals.{ReviewDecisionSignal, StatusEventSignal}
use sps_v.Contracts.Transition.{StateTransitionRequest, StateTransitionResult}
use sps_v.Cases.{PermitCaseStateSnapshot}
use sps_v.Evidence.{PersistEvidenceRequest}
use sps_v.Packages.{PersistSubmissionPackageRequest}
use sps_v.Records.{
  PersistCorrectionTaskRequest, PersistResubmissionPackageRequest, PersistApprovalRecordRequest,
  PersistInspectionMilestoneRequest,
}
use sps_v.Submission.{SubmissionAdapterRequest, SubmissionAdapterResult}

-- An activity with its argument.
pub data Call : Type 0 where
  ensure_permit_case_exists : String → Call
  fetch_permit_case_state : String → Call
  apply_state_transition : StateTransitionRequest → Call
  persist_jurisdiction_resolutions : PersistEvidenceRequest → Call
  persist_requirement_sets : PersistEvidenceRequest → Call
  persist_compliance_evaluation : PersistEvidenceRequest → Call
  persist_incentive_assessment : PersistEvidenceRequest → Call
  persist_submission_package : PersistSubmissionPackageRequest → Call
  deterministic_submission_adapter : SubmissionAdapterRequest → Call
  persist_correction_task : PersistCorrectionTaskRequest → Call
  persist_resubmission_package : PersistResubmissionPackageRequest → Call
  persist_approval_record : PersistApprovalRecordRequest → Call
  persist_inspection_milestone : PersistInspectionMilestoneRequest → Call
  validate_emergency_artifact : String → Call
  validate_reviewer_confirmation : String → Call

-- What an activity returns.
abbrev pub Answer : Call → Type 0
Answer (Call.ensure_permit_case_exists id) = Bool
Answer (Call.fetch_permit_case_state id) = PermitCaseStateSnapshot
Answer (Call.apply_state_transition req) = StateTransitionResult
Answer (Call.persist_jurisdiction_resolutions req) = List String
Answer (Call.persist_requirement_sets req) = List String
Answer (Call.persist_compliance_evaluation req) = List String
Answer (Call.persist_incentive_assessment req) = List String
Answer (Call.persist_submission_package req) = String
Answer (Call.deterministic_submission_adapter req) = SubmissionAdapterResult
Answer (Call.persist_correction_task req) = String
Answer (Call.persist_resubmission_package req) = String
Answer (Call.persist_approval_record req) = String
Answer (Call.persist_inspection_milestone req) = String
Answer (Call.validate_emergency_artifact id) = String
Answer (Call.validate_reviewer_confirmation id) = String

-- The attributes of `PermitCaseWorkflow`.
pub record Self : Type 0 where
  pub case_id : Option String
  pub review_decision : Option ReviewDecisionSignal
  pub status_event_signal : Option StatusEventSignal
  pub emergency_hold_entry_attempt : ℕ
  pub emergency_hold_exit_attempt : ℕ

-- `__init__`
abbrev pub new_self : Self
new_self = record {
  case_id = none;
  review_decision = none;
  status_event_signal = none;
  emergency_hold_entry_attempt = 0;
  emergency_hold_exit_attempt = 0;
}

-- `workflow.info()`
pub record Info : Type 0 where
  pub workflow_id : String
  pub run_id : String

-- A coroutine of the workflow. `wait_review` is `wait_condition` on the decision.
pub data Prog (A : Type 0) : Type 0 where
  ret : A → Prog A
  raise : Error → Prog A
  call : (c : Call) → (Answer c → Prog A) → Prog A
  at_time : (Datetime → Prog A) → Prog A
  with_self : (Self → Prog A) → Prog A
  assigned : (Self → Self) → Prog A → Prog A
  wait_review : Prog A → Prog A

infixl 5 ◌>>=◌ ◌>>◌
unfoldable pub ◌>>=◌ : {A B : Type 0} → Prog A → (A → Prog B) → Prog B
Prog.ret a >>= f = f a
Prog.raise e >>= f = Prog.raise e
Prog.call c k >>= f = Prog.call c (λ a. k a >>= f)
Prog.at_time k >>= f = Prog.at_time (λ t. k t >>= f)
Prog.with_self k >>= f = Prog.with_self (λ s. k s >>= f)
Prog.assigned g p >>= f = Prog.assigned g (p >>= f)
Prog.wait_review p >>= f = Prog.wait_review (p >>= f)

abbrev pub ◌>>◌ : {A B : Type 0} → Prog A → Prog B → Prog B
p >> q = p >>= λ _. q

-- `await workflow.execute_activity(...)`
abbrev pub execute : (c : Call) → Prog (Answer c)
execute c = Prog.call c (λ a. Prog.ret a)

abbrev pub read_self : Prog Self
read_self = Prog.with_self (λ s. Prog.ret s)

abbrev pub now : Prog Datetime
now = Prog.at_time (λ t. Prog.ret t)

abbrev pub assign : (Self → Self) → Prog (Unit {0})
assign f = Prog.assigned f (Prog.ret tt)

abbrev pub wait_for_review : Prog (Unit {0})
wait_for_review = Prog.wait_review (Prog.ret tt)

-- What is read of an attribute that the code asserts to be there.
abbrev pub asserted : {A : Type 0} → Option A → Prog A
asserted none = Prog.raise Error.assertion_error
asserted (some a) = Prog.ret a
