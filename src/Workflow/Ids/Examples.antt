-- ===== src/Workflow/Ids/Examples.antt =====
-- The identifier of a sample case's workflow.
use sps_v.Common.{◌≡◌, refl, ok}
use sps_v.Common.Text.{is_blank}
use sps_v.Workflow.Ids.{case_id_from_workflow_id}
use sps_v.Workflow.Ids.Start.{
  permit_case_workflow_id, case_id_from_workflow_id-permit_case_workflow_id,
}

named : permit_case_workflow_id "case-1" ≡ ok "permit-case/case-1"
unfolding permit_case_workflow_id is_blank
named = refl

case_id_from_workflow_id-permit_case_workflow_id_example :
    case_id_from_workflow_id "permit-case/case-1" ≡ ok "case-1"
case_id_from_workflow_id-permit_case_workflow_id_example =
    case_id_from_workflow_id-permit_case_workflow_id "case-1" "permit-case/case-1" named
