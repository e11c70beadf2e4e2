-- ===== src/Submission/Gates.antt =====
-- What an attempt does for the gate that the workflow tries next.
use sps_v.Common.{
  Exists-last, ◌≡◌, sym, ◌∙◌, subst, false, Option, none, some, ◌==◌, string_eq, arith, filter,
  latest, ok,
}
use sps_v.Contracts.CaseState.{CaseState, document_complete, submitted, manual_submission_required}
use sps_v.Contracts.Enums.{SubmissionAdapterOutcome}
use sps_v.Contracts.Transition.{StateTransitionRequest}
use sps_v.Assertions.{Registry}
use sps_v.Db.{Database, PermitCase, ManualFallbackPackage}
use sps_v.Guard.Branch.{Branch}
use sps_v.Guard.Gates.{apply_at}
use sps_v.Guard.Spec.{Edge, IsProven}
use sps_v.Guard.Apply.{requested_at, get_case, evaluate}
use sps_v.Guard.Apply.Exact.{evaluate_complete}
use sps_v.Records.{get_attempt}
use sps_v.Submission.{
  SubmissionAdapterRequest, SubmissionAdapterResult, Delivery, attempt_conflicts, fallback_row,
  store_manual, store_submitted, manual_result, submitted_result, deterministic_submission_adapter,
}
use sps_v.Submission.Retry.{Delivers, by_hand, to_portal, transact_of_conclude, adapter_new}

-- The state that the workflow asks for after an attempt (`_run_submission_step`); it raises after a
-- failed one.
unfoldable pub submission_target : SubmissionAdapterOutcome → Option CaseState
submission_target SubmissionAdapterOutcome.unsupported_workflow = some manual_submission_required
submission_target SubmissionAdapterOutcome.success = some submitted
submission_target SubmissionAdapterOutcome.failed = none

module _ (registry : Registry) (req : StateTransitionRequest) (case : PermitCase) where
  -- The newest fallback package of the case, if there is one, has a confirmed proof bundle.
  abbrev pub CaseIsProven : Database → Type 0
  CaseIsProven db = IsProven req (requested_at req) db (
      latest (λ f. f.created_at)
        (filter (λ f. f.case_id == req.case_id) db.manual_fallback_packages))

  module _ (delivery : Delivery) (sent : SubmissionAdapterRequest) (db : Database)
      (same : sent.case_id ≡ req.case_id) (from : req.from_state ≡ document_complete)
      (found : get_case req db ≡ some case) (at : case.case_state ≡ document_complete)
      (proven : CaseIsProven db) where
    Delivers-evaluate :
        (r : SubmissionAdapterResult) (db' : Database)
        → Delivers delivery sent db r db'
        → submission_target r.outcome ≡ some req.to_state
        → evaluate registry req db' ≡ ok (apply_at (requested_at req))
    unfolding get_case submission_target store_manual store_submitted manual_result submitted_result
        fallback_row
    Delivers-evaluate r db' (by_hand c pack f p free hand) target =
        let to : manual_submission_required ≡ req.to_state = ground arith in
        evaluate_complete registry req db' case found (at ∙ sym from) (
          Branch.manual_submission,
          subst (λ t. Edge req.from_state t Branch.manual_submission) to
              (rw from Edge.manual_submission),
          Exists-last (λ (m : ManualFallbackPackage). m.case_id ≡ req.case_id)
              db.manual_fallback_packages (fallback_row delivery sent db c pack) same,
        )
    Delivers-evaluate r db' (to_portal c pack receipt f p free portal q) target =
        let to : submitted ≡ req.to_state = ground arith in
        evaluate_complete registry req db' case found (at ∙ sym from) (
          Branch.submission,
          subst (λ t. Edge req.from_state t Branch.submission) to (rw from Edge.submission),
          proven,
        )

    -- If an attempt, alone, with no other in its way, returns a result for a case at
    -- DOCUMENT_COMPLETE whose newest fallback package, if it has one, is proven, then the transition
    -- that the workflow asks for on its outcome is decided as applied.
    pub adapter-evaluate :
        (r : SubmissionAdapterResult) (db' : Database)
        → get_attempt sent.submission_attempt_id db ≡ none
        → attempt_conflicts sent db ≡ false
        → deterministic_submission_adapter delivery sent (λ d. d) db ≡ (ok r, db')
        → submission_target r.outcome ≡ some req.to_state
        → evaluate registry req db' ≡ ok (apply_at (requested_at req))
    adapter-evaluate r db' new free e target =
        Delivers-evaluate r db'
          (transact_of_conclude delivery sent db r db' free
            (sym (adapter_new delivery sent (λ d. d) db new) ∙ e))
          target
