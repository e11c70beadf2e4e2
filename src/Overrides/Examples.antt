-- ===== src/Overrides/Examples.antt =====
-- An override of the review gate for two hours.
use Prim.Native.String.{◌++◌}
use sps_v.Common.{◌+◌, ◌<◌, ◌≡◌, ◌↔◌, refl, true, none, some, [], ◌∷◌, string_eq, find, elem}
use sps_v.Common.Time.{hours}
use sps_v.Contracts.CaseState.{review_pending, approved_for_submission, value}
use sps_v.Contracts.Transition.{StateTransitionRequest}
use sps_v.Db.{Database}
use sps_v.Contracts.Samples.{approval_request}
use sps_v.Db.Samples.{empty, sample_case}
use sps_v.Guard.Gates.{validate_override}
use sps_v.Overrides.Covers.{create_override-validate_override}
use sps_v.Overrides.{
  CreateOverrideRequest, Reply, row_to_response, is_valid_request, new_row, violates,
  create_override,
}

abbrev sample_db : Database
sample_db = record empty { permit_cases = sample_case ∷ [] }

abbrev sample_request : CreateOverrideRequest
sample_request = record {
  case_id = "case-1";
  scope = "review";
  justification = "storm";
  duration_hours = 2;
  affected_surfaces = "REVIEW_PENDING->APPROVED_FOR_SUBMISSION" ∷ [];
}

abbrev sample_transition : StateTransitionRequest
sample_transition = record approval_request { override_id = some "OVR-1" }

creation_done :
    (create_override "1" "owner" 5 sample_request sample_db).0
    ≡ Reply.created (row_to_response (new_row "OVR-1" "owner" 5 sample_request))
unfolding create_override is_valid_request violates find
creation_done = refl

named : sample_transition.override_id ≡ some (new_row "OVR-1" "owner" 5 sample_request).override_id
unfolding new_row
named = refl

create_override-validate_override_example :
    (validate_override [] sample_transition 7
        (create_override "1" "owner" 5 sample_request sample_db).1
        sample_transition.override_id
      ≡ none)
    ↔ ((sample_transition.case_id ≡ "case-1")
        × (7 < 5 + hours 2)
        × (elem
              (value review_pending ++ "->" ++ value approved_for_submission)
              sample_request.affected_surfaces
            ≡ true))
create_override-validate_override_example =
    create_override-validate_override "1" "owner" 5 sample_request sample_db
      (row_to_response (new_row "OVR-1" "owner" 5 sample_request)) creation_done []
      sample_transition 7 named
