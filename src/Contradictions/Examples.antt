-- ===== src/Contradictions/Examples.antt =====
-- A blocking contradiction of a case that waits for its approval.
use sps_v.Common.{◌≡◌, refl, true, false, some, [], ◌∷◌, string_eq, find, ok}
use sps_v.Assertions.{get_normalized_business_invariants}
use sps_v.Contracts.Enums.{EventType, DenialReason}
use sps_v.Contracts.Transition.{StateTransitionResult, is_applied}
use sps_v.Db.{Database, ContradictionArtifact}
use sps_v.Contracts.Samples.{approval_request}
use sps_v.Db.Samples.{empty, sample_case}
use sps_v.Guard.Branch.{branch}
use sps_v.Guard.Gates.{deny, run_branch, review_branch, blocking_contradiction}
use sps_v.Guard.Apply.{get_case, evaluate}
use sps_v.Contradictions.Blocks.{create_contradiction-evaluate}
use sps_v.Contradictions.{
  CreateContradictionRequest, ResolveContradictionRequest, Reply, row_to_response, get_row, new_row,
  violates, create_contradiction, resolved, resolve_contradiction,
}

abbrev sample_db : Database
sample_db = record empty { permit_cases = sample_case ∷ [] }

abbrev sample_request : CreateContradictionRequest
sample_request = record {
  contradiction_id = "contradiction-1";
  case_id = "case-1";
  scope = "zoning";
  source_a = "a";
  source_b = "b";
  ranking_relation = "EQUAL";
  blocking_effect = true;
}

abbrev sample_row : ContradictionArtifact
sample_row = new_row sample_request

abbrev blocked_db : Database
blocked_db = (create_contradiction sample_request sample_db).1

abbrev sample_denial : StateTransitionResult
sample_denial =
    deny 7 EventType.contradiction_advance_denied DenialReason.blocking_contradiction_unresolved
      (some "INV-SPS-CONTRA-001") (some [])

creation_done :
    (create_contradiction sample_request sample_db).0 ≡ Reply.done (row_to_response sample_row)
unfolding create_contradiction violates get_row find
creation_done = refl

case_found : get_case approval_request blocked_db ≡ some sample_case
unfolding create_contradiction violates get_row get_case find
case_found = refl

approval_denied : evaluate [] approval_request blocked_db ≡ ok sample_denial
unfolding create_contradiction violates get_row new_row evaluate get_case find branch run_branch
    review_branch blocking_contradiction get_normalized_business_invariants
approval_denied = refl

create_contradiction-evaluate_example : is_applied sample_denial ≡ false
create_contradiction-evaluate_example =
    create_contradiction-evaluate sample_request sample_db [] approval_request sample_case
      sample_denial (row_to_response sample_row) creation_done refl refl refl refl refl case_found
      approval_denied

abbrev sample_resolution : ResolveContradictionRequest
sample_resolution = record { resolved_by = "operator" }

resolution_done :
    (resolve_contradiction 9 "contradiction-1" sample_resolution blocked_db).0
    ≡ Reply.done (row_to_response (resolved 9 sample_resolution sample_row))
unfolding create_contradiction violates get_row new_row find resolve_contradiction
resolution_done = refl
