-- ===== src/Workflow/Examples.antt =====
-- A run for a case at REVIEW_PENDING, to its wait for a decision and past it.
use sps_v.Common.{◌≤◌, ◌≡◌, refl, true, false, some, [], ◌∷◌, find}
use sps_v.Contracts.CaseState.{review_pending}
use sps_v.Contracts.Enums.{ReviewDecisionOutcome}
use sps_v.Contracts.Signals.{ReviewDecisionSignal, review_signal}
use sps_v.Db.Samples.{empty}
use sps_v.Cases
use sps_v.Cases.{PermitCaseStateSnapshot}
use sps_v.Guard.Apply.{World}
use sps_v.Workflow.{Call, Self, Prog, ◌>>=◌, new_self}
use sps_v.Workflow.Decision.{start, first_decision_stays}
use sps_v.Workflow.Perform.{perform}
use sps_v.Workflow.Run.{run, run_at}
use sps_v.Workflow.Signals.{review_decision}
use sps_v.Workflow.Steps.{
  reads, assigns, answers, Signal, Config, main_turn, handler_turn, arrives, Reach, here, next,
}
use sps_v.Workflow.Threads.{Thread, begin, turn, answers_had, run-terminates}
use sps_v.Workflow.Samples.{sample_world, info, context, orderly}

abbrev named_self : Self
named_self = record new_self { case_id = some "case-1" }

abbrev snapshot : PermitCaseStateSnapshot
snapshot = record { case_id = "case-1"; case_state = review_pending; project_id = "project" }

-- The run up to its first transition.
opening : Thread (run info "case-1") (run_at info review_pending)
unfolding run ◌>>=◌ perform Cases.ensure_permit_case_exists Cases.fetch_permit_case_state find
opening =
    turn
      (turn
        (turn
          (turn begin (assigns new_self sample_world (λ s. record s { case_id = some "case-1" }) _))
          (answers context named_self sample_world (Call.ensure_permit_case_exists "case-1") false _
            (orderly _) refl))
        (reads named_self sample_world _))
      (answers context named_self sample_world (Call.fetch_permit_case_state "case-1") snapshot _
        (orderly _) refl)

run-terminates_example : answers_had opening ≤ 10
run-terminates_example = run-terminates info "case-1" (run_at info review_pending) opening

abbrev no_cases : World
no_cases = record sample_world { db = empty }

abbrev with_case : World
with_case = record sample_world {
  db = record empty { permit_cases = Cases.new_case "case-1" ∷ [] };
}

abbrev created : PermitCaseStateSnapshot
created = record { case_id = "case-1"; case_state = review_pending; project_id = "project-case-1" }

abbrev at_review : Config
at_review = record {
  attributes = named_self;
  world = with_case;
  main = run_at info review_pending;
  handlers = [];
}

creates : Reach info (start info "case-1" no_cases) at_review
unfolding run ◌>>=◌ perform Cases.ensure_permit_case_exists Cases.fetch_permit_case_state
    Cases.new_case find
creates =
    next
      (next
        (next
          (next here
            (main_turn (assigns new_self no_cases (λ s. record s { case_id = some "case-1" }) _)))
          (main_turn (
            answers context named_self no_cases (Call.ensure_permit_case_exists "case-1") true _
              (orderly _) refl)))
        (main_turn (reads named_self with_case _)))
      (main_turn (
        answers context named_self with_case (Call.fetch_permit_case_state "case-1") created _
          (orderly _) refl))

abbrev first_signal : ReviewDecisionSignal
first_signal = review_signal "decision-1" ReviewDecisionOutcome.accept "reviewer-1"

abbrev second_signal : ReviewDecisionSignal
second_signal = review_signal "decision-2" ReviewDecisionOutcome.block "reviewer-2"

abbrev decided : Self
decided = record named_self { review_decision = some first_signal }

abbrev after_first : Config
after_first = record at_review { attributes = decided; handlers = Prog.ret tt ∷ [] }

abbrev after_second : Config
after_second = record at_review { attributes = decided; handlers = Prog.ret tt ∷ Prog.ret tt ∷ [] }

signalled_first : Reach info (start info "case-1" no_cases) after_first
unfolding review_decision
signalled_first =
    next (next creates (arrives (Signal.review first_signal)))
      (handler_turn [] [] (assigns named_self with_case _ _))

signalled_second : Reach info after_first after_second
unfolding review_decision
signalled_second =
    next (next here (arrives (Signal.review second_signal)))
      (handler_turn (Prog.ret tt ∷ []) [] (assigns decided with_case _ _))

first_decision_stays_example : after_second.attributes.review_decision ≡ some first_signal
first_decision_stays_example =
    first_decision_stays info "case-1" no_cases after_first after_second first_signal
      signalled_first refl signalled_second
