-- ===== src/Workflow/Tame/Run.antt =====
-- The methods of the workflow and its `run` make a bounded number of calls and keep a decision.
use sps_v.Common.{ℕ, String, ◌≡◌, refl, sym, subst, Option, none, some, arith, ◌==◌}
use sps_v.Contracts.CaseState.{
  CaseState, state_eq, intake_pending, intake_complete, compliance_complete, incentives_complete,
  document_complete, submitted, comment_review_pending, correction_pending, resubmission_pending,
}
use sps_v.Contracts.Signals.{ReviewDecisionSignal}
use sps_v.Contracts.Transition.{StateTransitionResult, is_applied}
use sps_v.Workflow.{Info, Self, Prog, ◌>>=◌, asserted}
use sps_v.Workflow.Parts.{
  fetch_snapshot, apply_transition, advance, finished, idle, run_submission_step, persist_package,
  assess_incentives, complete_documents,
}
use sps_v.Workflow.Run.{
  run, run_at, run_intake_pending, run_intake_complete, run_compliance_complete,
  run_incentives_complete, run_document_complete, run_comment_review_pending,
  run_resubmission_pending, run_review, run_reviewed, after_decision, keep_decision,
}
use sps_v.Workflow.Tame.{
  IsTame, Kept, Kept-refl, Kept-some, Steady, Within, asks, chain, done, expected-IsTame,
  free_assign, free_now, free_wait, if-IsTame, own_case-IsTame, require-IsTame, stops, widen,
}

pub fetch_snapshot-IsTame : IsTame 1 fetch_snapshot
fetch_snapshot-IsTame = chain 0 1 own_case-IsTame (λ id. asks (λ a. done))

module _ (info : Info) where
  pub apply_transition-IsTame :
      (id : String) (from to : CaseState) (causation_id review_id : Option String)
      → IsTame 1 (apply_transition info id from to causation_id review_id)
  unfolding apply_transition
  apply_transition-IsTame id from to causation_id review_id =
      chain 0 1 own_case-IsTame (λ case_id. chain 0 1 free_now (λ t. asks (λ a. done)))

  advance-IsTame :
      (name : String) (from to : CaseState) (causation_id : Option String)
      → IsTame 1 (advance info name from to causation_id)
  unfolding advance
  advance-IsTame name from to causation_id =
      chain 1 0 (apply_transition-IsTame _ from to causation_id none)
        (λ result. chain 0 0 (require-IsTame (is_applied result)) (λ u. done))

  finished-IsTame :
      (first last : String × StateTransitionResult) → IsTame 0 (finished info first last)
  unfolding finished
  finished-IsTame first last = chain 0 0 own_case-IsTame (λ id. done)

  idle-IsTame : IsTame 0 (idle info)
  unfolding idle
  idle-IsTame = chain 0 0 own_case-IsTame (λ id. stops)

  run_submission_step-IsTame :
      (package_id : String) (initial : Option (String × StateTransitionResult))
      → IsTame 2 (run_submission_step info package_id initial)
  unfolding run_submission_step
  run_submission_step-IsTame package_id initial = chain 0 2 own_case-IsTame (λ id.
      chain 1 1 (asks (λ a. done)) (λ r. chain 0 1 (expected-IsTame _) (λ name.
        chain 0 1 (expected-IsTame _)
          (λ to. chain 1 0 (advance-IsTame name _ to _) (λ last. finished-IsTame _ last)))))

  persist_package-IsTame : (attempt : ℕ) → IsTame 1 (persist_package info attempt)
  unfolding persist_package
  persist_package-IsTame attempt = chain 0 1 own_case-IsTame (λ id. asks (λ a. done))

  assess_incentives-IsTame :
      (causation_id : Option String) → IsTame 2 (assess_incentives info causation_id)
  unfolding assess_incentives
  assess_incentives-IsTame causation_id = chain 0 2 own_case-IsTame (λ id.
      chain 1 1 (asks (λ a. done)) (λ a.
        advance-IsTame "compliance_complete_to_incentives_complete" compliance_complete
          incentives_complete causation_id))

  complete_documents-IsTame : (state : CaseState) → IsTame 1 (complete_documents info state)
  unfolding complete_documents
  complete_documents-IsTame state =
      if-IsTame (state == document_complete) {p = Prog.ret none} done (
        chain 1 0 {f = λ p. Prog.ret (some p)}
          (advance-IsTame "incentives_complete_to_document_complete" incentives_complete
            document_complete none)
          (λ p. done))

  run_intake_pending-IsTame : IsTame 1 (run_intake_pending info)
  unfolding run_intake_pending
  run_intake_pending-IsTame =
      chain 1 0 (advance-IsTame _ _ _ _) (λ p. chain 0 0 own_case-IsTame (λ id. done))

  run_intake_complete-IsTame : IsTame 8 (run_intake_complete info)
  unfolding run_intake_complete
  run_intake_complete-IsTame = chain 0 8 own_case-IsTame (λ id. chain 1 7 (asks (λ a. done)) (λ js.
      chain 1 6 (advance-IsTame _ _ _ _) (λ first. chain 1 5 (asks (λ a. done)) (λ rs.
        chain 1 4 (advance-IsTame _ _ _ _) (λ researched. chain 1 3 (asks (λ a. done)) (λ es.
          chain 1 2 (advance-IsTame _ _ _ _) (λ compliant.
            chain 2 0 (assess_incentives-IsTame _) (λ last. finished-IsTame first last))))))))

  run_compliance_complete-IsTame : IsTame 2 (run_compliance_complete info)
  unfolding run_compliance_complete
  run_compliance_complete-IsTame =
      chain 2 0 (assess_incentives-IsTame none) (λ last. finished-IsTame last last)

  run_incentives_complete-IsTame : IsTame 5 (run_incentives_complete info)
  unfolding run_incentives_complete
  run_incentives_complete-IsTame = chain 1 4 (persist_package-IsTame 1) (λ package_id.
      chain 1 3 fetch_snapshot-IsTame (λ snapshot.
        chain 1 2 (complete_documents-IsTame _)
          (λ document. run_submission_step-IsTame package_id document)))

  run_document_complete-IsTame : IsTame 3 (run_document_complete info)
  unfolding run_document_complete
  run_document_complete-IsTame =
      chain 1 2 (persist_package-IsTame 1)
        (λ package_id. run_submission_step-IsTame package_id none)

  run_comment_review_pending-IsTame : IsTame 1 (run_comment_review_pending info)
  unfolding run_comment_review_pending
  run_comment_review_pending-IsTame =
      chain 1 0 (advance-IsTame _ _ _ _) (λ last. finished-IsTame last last)

  run_resubmission_pending-IsTame : IsTame 4 (run_resubmission_pending info)
  unfolding run_resubmission_pending
  run_resubmission_pending-IsTame = chain 1 3 (advance-IsTame _ _ _ _) (λ first.
      chain 1 2 (persist_package-IsTame 2)
        (λ package_id. run_submission_step-IsTame package_id (some first)))

  -- What the second attempt does after its decision is there.
  after_decision-IsTame :
      (id : String) (first : StateTransitionResult) (signal : ReviewDecisionSignal)
      → IsTame 1 (after_decision info id first signal)
  unfolding after_decision
  after_decision-IsTame id first signal = chain 0 1 (expected-IsTame _) (λ decision_id.
      chain 1 0 (apply_transition-IsTame _ _ _ _ _)
        (λ last. chain 0 0 (require-IsTame _) (λ v. chain 0 0 own_case-IsTame (λ case_id. done))))

  -- The decision that is assigned is the one that was read.
  keep_read-IsTame :
      (o : Option ReviewDecisionSignal) (id : String) (first : StateTransitionResult)
      → Within 1 (asserted o >>= keep_decision info id first)
        × ((s : Self)
            → s.review_decision ≡ o
            → Steady s (asserted o >>= keep_decision info id first))
  unfolding keep_decision ◌>>=◌
  keep_read-IsTame none id first = (tt, λ s e. tt)
  keep_read-IsTame (some signal) id first =
      let rest = after_decision-IsTame id first signal in
      (
        rest.bound,
        λ s e t f. (
          subst (λ o. Kept o (some signal))
              (sym (Kept-some signal s.review_decision t.review_decision e f)) refl,
          rest.steady (record t { review_decision = some signal }),
        ),
      )

  run_reviewed-IsTame :
      (id : String) (first : StateTransitionResult) → IsTame 1 (run_reviewed info id first)
  unfolding run_reviewed ◌>>=◌
  run_reviewed-IsTame id first = record {
    bound = λ s. (keep_read-IsTame s.review_decision id first).0;
    steady = λ s t e. (keep_read-IsTame t.review_decision id first).1 t refl;
  }

  run_review-IsTame : IsTame 2 (run_review info)
  unfolding run_review
  run_review-IsTame = chain 1 1 (apply_transition-IsTame _ _ _ _ _) (λ first.
      chain 0 1 own_case-IsTame (λ case_id.
        if-IsTame (is_applied first) done
          (if-IsTame _ (chain 0 1 free_wait (λ u. run_reviewed-IsTame _ first)) stops)))

  run_at-IsTame : (state : CaseState) → IsTame 8 (run_at info state)
  unfolding run_at
  run_at-IsTame intake_pending = widen run_intake_pending-IsTame (omega arith)
  run_at-IsTame intake_complete = run_intake_complete-IsTame
  run_at-IsTame compliance_complete = widen run_compliance_complete-IsTame (omega arith)
  run_at-IsTame incentives_complete = widen run_incentives_complete-IsTame (omega arith)
  run_at-IsTame document_complete = widen run_document_complete-IsTame (omega arith)
  run_at-IsTame submitted = widen idle-IsTame (omega arith)
  run_at-IsTame comment_review_pending = widen run_comment_review_pending-IsTame (omega arith)
  run_at-IsTame correction_pending = widen idle-IsTame (omega arith)
  run_at-IsTame resubmission_pending = widen run_resubmission_pending-IsTame (omega arith)
  run_at-IsTame _ = widen run_review-IsTame (omega arith)

  -- `run`, for any case.
  pub run-IsTame : (case_id : String) → IsTame 10 (run info case_id)
  unfolding run
  run-IsTame case_id = chain 0 10 (free_assign (λ t. Kept-refl t.review_decision)) (λ u.
      chain 1 9 (asks (λ a. done))
        (λ there. chain 1 8 fetch_snapshot-IsTame (λ snapshot. run_at-IsTame snapshot.case_state)))
