-- ===== src/Guard/Apply/Examples.antt =====
-- The review gate on a case that has an accepted review, as sample worlds, and the theorems there.
use sps_v.Common.{
  String, ◌≡◌, ◌≢◌, refl, true, false, none, some, List, [], ◌∷◌, string_eq, find, ok, err, Error,
  inr, elem, eq_iff,
}
use sps_v.Contracts.CaseState.{review_pending, approved_for_submission, submitted}
use sps_v.Contracts.Enums.{ReviewDecisionOutcome, ReviewerIndependenceStatus}
use sps_v.Contracts.Transition.{StateTransitionRequest, StateTransitionResult}
use sps_v.Failpoints.{Failpoints, fail_once}
use sps_v.Db.{Database, PermitCase, ReviewDecision, CaseTransitionLedger}
use sps_v.Contracts.Samples.{approval_request}
use sps_v.Db.Samples.{empty, sample_case}
use sps_v.Guard.Branch.{branch, Branch}
use sps_v.Guard.Spec.{Edge, HasReview, HasBlocker, Permits}
use sps_v.Guard.Gates.{
  apply_at, review_branch, apply_review_gate, find_review, blocking_contradiction, run_branch,
}
use sps_v.Guard.Apply.Exact.{evaluate_complete}
use sps_v.Guard.Apply.Effects.{applied_is_permitted, case_moves}
use sps_v.Guard.Apply.Idempotency.{
  IsSettled, replay, retry_returns, retry_after_crash, loser_returns_winner,
}
use sps_v.Guard.Apply.History.{History, IsExplained, handle_all, handle_all-IsExplained}
use sps_v.Guard.Apply.{
  World, Env, get_ledger, get_case, persisted, evaluate, ledger_row, writes, violates, after_commit,
  reload, locked, attempt, apply_state_transition,
}

abbrev other_case : PermitCase
other_case = record sample_case { case_id = "case-2"; case_state = submitted }

abbrev sample_review : ReviewDecision
sample_review = record {
  decision_id = "review-1";
  schema_version = "1.0";
  case_id = "case-1";
  object_type = "permit_case";
  object_id = "case-1";
  decision_outcome = ReviewDecisionOutcome.accept;
  reviewer_id = "reviewer";
  subject_author_id = some "author";
  reviewer_independence_status = ReviewerIndependenceStatus.pass;
  evidence_ids = [];
  contradiction_resolution = none;
  dissent_flag = false;
  notes = none;
  decision_at = 5;
  idempotency_key = "key-1";
}

abbrev sample_db : Database
sample_db = record empty {
  permit_cases = sample_case ∷ other_case ∷ [];
  review_decisions = sample_review ∷ [];
}

abbrev quiet : Failpoints
quiet = record { is_enabled = false; enabled_keys = []; fired_keys = []; seen_counts = λ k. 0 }

abbrev armed : Failpoints
armed = record quiet {
  is_enabled = true;
  enabled_keys = "apply_state_transition.after_commit/request-1" ∷ [];
}

abbrev sample_env : Env
sample_env = record { registry = []; audit_event_id = "event-1" }

abbrev sample_world : World
sample_world = record { db = sample_db; failpoints = quiet }

abbrev armed_world : World
armed_world = record { db = sample_db; failpoints = armed }

abbrev sample_result : StateTransitionResult
sample_result = apply_at 7

abbrev written_world : World
written_world = record sample_world {
  db = writes sample_env approval_request sample_result sample_db;
}

abbrev stay : Database → Database
stay db = db

run_applies :
    apply_state_transition sample_env approval_request sample_world
    ≡ (ok sample_result, written_world)
unfolding apply_state_transition attempt locked evaluate get_case get_ledger violates reload
    after_commit find fail_once branch run_branch review_branch apply_review_gate find_review
    blocking_contradiction
run_applies = refl

not_in_ledger : get_ledger approval_request sample_db ≡ none
unfolding get_ledger find
not_in_ledger = refl

case_found : get_case approval_request sample_db ≡ some sample_case
unfolding get_case find
case_found = refl

applied_is_permitted_example :
    (sample_case.case_state ≡ review_pending) × Permits approval_request 7 sample_db
applied_is_permitted_example =
    applied_is_permitted sample_env approval_request sample_world written_world sample_result
      not_in_ledger run_applies sample_case case_found refl

case_moves_example :
    get_case approval_request written_world.db
    ≡ some (record sample_case { case_state = approved_for_submission })
case_moves_example =
    case_moves sample_env approval_request sample_world written_world sample_result not_in_ledger
      run_applies sample_case case_found

ids_differ : ◌≢◌ {A = String} "case-2" "case-1"
ids_differ = λ e. cc ((eq_iff "case-2" "case-1").1 e)

no_blocker : ¬ HasBlocker approval_request 7 sample_db
no_blocker h = h

sample_review_passes : HasReview approval_request 7 sample_db
unfolding find
sample_review_passes = record {
  review_id = "review-1";
  row = sample_review;
  named = refl;
  not_empty = λ e. cc ((eq_iff "review-1" "").1 e);
  found = refl;
  same_case = refl;
  accepts = λ e. cc;
}

evaluate_complete_example : evaluate [] approval_request sample_db ≡ ok (apply_at 7)
evaluate_complete_example =
    evaluate_complete [] approval_request sample_db sample_case case_found refl
      (Branch.review_gate, Edge.review_gate, (sample_review_passes, inr (refl, no_blocker)))

retry_returns_example :
    ((attempt sample_env stay approval_request written_world).0
      ≡ replay approval_request sample_result written_world)
    × ((attempt sample_env stay approval_request written_world).1.db ≡ written_world.db)
unfolding apply_state_transition
retry_returns_example =
    retry_returns sample_env sample_env stay stay approval_request sample_world written_world
      written_world sample_result run_applies refl

abbrev crashed_world : World
crashed_world = record {
  db = written_world.db;
  failpoints = (fail_once "apply_state_transition.after_commit/request-1" armed).1;
}

run_crashes :
    attempt sample_env stay approval_request armed_world
    ≡ (err Error.failpoint_fired, crashed_world)
unfolding attempt locked evaluate get_case get_ledger violates reload after_commit find fail_once
    elem branch run_branch review_branch apply_review_gate find_review blocking_contradiction
run_crashes = refl

retry_after_crash_example :
    (r : StateTransitionResult) × IsSettled approval_request r crashed_world.db
    × ((attempt sample_env stay approval_request crashed_world).0 ≡ ok r)
    × ((attempt sample_env stay approval_request crashed_world).1.db ≡ crashed_world.db)
retry_after_crash_example =
    retry_after_crash sample_env sample_env stay stay approval_request armed_world crashed_world
      run_crashes

abbrev empty_world : World
empty_world = record { db = empty; failpoints = quiet }

run_raises :
    attempt sample_env stay approval_request empty_world ≡ (err Error.lookup_error, empty_world)
unfolding attempt locked evaluate get_case get_ledger find
run_raises = refl

-- The rival that commits the same request.
abbrev rival_row : CaseTransitionLedger
rival_row = ledger_row approval_request sample_result

abbrev rival : Database → Database
rival db = record db { case_transition_ledger = rival_row ∷ [] }

rival_in_ledger : get_ledger approval_request (rival sample_db) ≡ some rival_row
unfolding get_ledger find ledger_row
rival_in_ledger = refl

rival_decided : evaluate [] approval_request (rival sample_db) ≡ ok sample_result
unfolding evaluate get_case find branch run_branch review_branch apply_review_gate find_review
    blocking_contradiction
rival_decided = refl

loser_returns_winner_example :
    attempt sample_env rival approval_request sample_world
    ≡ (ok (persisted approval_request rival_row), record sample_world { db = rival sample_db })
loser_returns_winner_example =
    loser_returns_winner sample_env rival approval_request sample_world written_world sample_result
      rival_row not_in_ledger rival_in_ledger rival_decided

sample-IsExplained : IsExplained "case-1" review_pending sample_db
unfolding find
sample-IsExplained = record { case = sample_case; found = refl; history = History.here }

abbrev twice : List (Env × StateTransitionRequest)
twice = (sample_env, approval_request) ∷ (sample_env, approval_request) ∷ []

handle_all-IsExplained_example :
    IsExplained "case-1" review_pending (handle_all twice sample_world).db
handle_all-IsExplained_example =
    handle_all-IsExplained twice sample_world "case-1" review_pending sample-IsExplained
