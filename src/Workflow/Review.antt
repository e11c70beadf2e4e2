-- ===== src/Workflow/Review.antt =====
-- The wait for a review decision ends: what is signalled is applied.
mod Examples
use sps_v.Common.{
  String, ◌≡◌, ◌≢◌, sym, Option, none, some, List, [], ◌∷◌, ◌++◌, Bool, true, find, ◌==◌, string_eq,
  arith,
}
use sps_v.Common.Time.{Datetime}
use sps_v.Contracts.CaseState.{review_pending, approved_for_submission}
use sps_v.Contracts.Enums.{ReviewDecisionOutcome}
use sps_v.Contracts.Signals.{ReviewDecisionSignal}
use sps_v.Contracts.Transition.{StateTransitionRequest, StateTransitionResult, is_applied}
use sps_v.Db.{Database, PermitCase, ReviewDecision}
use sps_v.Guard.Branch.{Branch}
use sps_v.Guard.Spec.{HasBlocker}
use sps_v.Guard.Apply.{World, requested_at, get_case, attempt}
use sps_v.Workflow.{Info, Self, Prog, ◌>>◌, wait_for_review}
use sps_v.Workflow.Ids.{transition_request_id}
use sps_v.Workflow.Parts.{transition_request}
use sps_v.Workflow.Run.{guarded, review_result, run_reviewed}
use sps_v.Workflow.Signals.{review_decision}
use sps_v.Workflow.Steps.{Config}

-- The attributes of a run for the case `id`, which has or has not been signalled a decision.
abbrev pub waiting : Self → String → Self
waiting s id = record s { case_id = some id; review_decision = none }

abbrev pub signalled : Self → String → ReviewDecisionSignal → Self
signalled s id signal = record s { case_id = some id; review_decision = some signal }

module _ (info : Info) (s : Self) (id first_id decision_id : String) (first : StateTransitionResult)
    (sent : ReviewDecisionSignal) (handlers : List (Prog (Unit {0}))) where
  -- The signal, which names its decision.
  abbrev pub signal : ReviewDecisionSignal
  signal = record sent { decision_id = some decision_id }

  -- A run that waits for a decision after its first attempt.
  abbrev pub at_wait : World → Config
  at_wait w = record {
    attributes = waiting s id;
    world = w;
    main = wait_for_review >> run_reviewed info first_id first;
    handlers = handlers;
  }

  -- The request of its second attempt.
  abbrev pub second_request : Datetime → StateTransitionRequest
  second_request t =
      transition_request info (transition_request_id info.workflow_id info.run_id guarded 2) id
        review_pending approved_for_submission (some first_id) (some decision_id) t

  -- It returns, with this as its final result.
  abbrev pub at_end : World → StateTransitionResult → Config
  at_end w last = record {
    attributes = signalled s id signal;
    world = w;
    main = Prog.ret (
        review_result info id first_id
          (transition_request_id info.workflow_id info.run_id guarded 2) first last
          (some decision_id) (some signal));
    handlers = handlers ++ Prog.ret tt ∷ [];
  }

  -- What the second attempt finds after what others commit beside it: the case awaits its review, the
  -- decision is of the case and does not block, and no contradiction does.
  pub record IsReviewed (db : Database) (t : Datetime) : Type 0 where
    pub case : PermitCase
    pub row : ReviewDecision
    pub found : get_case (second_request t) db ≡ some case
    pub pending : case.case_state ≡ review_pending
    pub named : decision_id ≢ ""
    pub stored : find (λ r. r.decision_id == decision_id) db.review_decisions ≡ some row
    pub same_case : row.case_id ≡ id
    pub accepts : row.decision_outcome ≢ ReviewDecisionOutcome.block
    pub no_blocker : ¬ HasBlocker (second_request t) (requested_at (second_request t)) db
