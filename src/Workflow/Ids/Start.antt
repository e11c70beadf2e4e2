-- ===== src/Workflow/Ids/Start.antt =====
-- The identifier under which a case's workflow is started: src/sps/workflows/permit_case/ids.py.
use Prim.Native.String.{◌++◌, len, slice}
use text.Mathlib.TextPositions.{slice-append_right, starts_with-append, len-append}
use sps_v.Common.{
  String, ◌≡◌, ◌∙◌, ap, subst, inl, inr, Bool-cases, if◌then◌else◌, Result, ok, err, Error, arith,
}
use sps_v.Common.Text.{is_blank}
use sps_v.Workflow.Ids.{case_id_from_workflow_id}

unfoldable pub permit_case_workflow_id : String → Result String
permit_case_workflow_id case_id =
    if is_blank case_id then err Error.value_error else ok ("permit-case/" ++ case_id)

-- The case of a workflow that was started under a case's identifier is that case.
pub case_id_from_workflow_id-permit_case_workflow_id :
    (case_id workflow_id : String)
    → permit_case_workflow_id case_id ≡ ok workflow_id
    → case_id_from_workflow_id workflow_id ≡ ok case_id
unfolding permit_case_workflow_id case_id_from_workflow_id
case_id_from_workflow_id-permit_case_workflow_id case_id workflow_id e =
    elim (Bool-cases (is_blank case_id)) [
      | inl blank ↦ absurd (ground arith)
      | inr named ↦
          let is : "permit-case/" ++ case_id ≡ workflow_id = ground arith in
          let rest : slice ("permit-case/" ++ case_id) 12 (len ("permit-case/" ++ case_id))
              ≡ case_id =
            ap (slice ("permit-case/" ++ case_id) 12) (len-append "permit-case/" case_id)
            ∙ slice-append_right "permit-case/" case_id in
          subst (λ w. case_id_from_workflow_id w ≡ ok case_id) is
            (rw (starts_with-append "permit-case/" case_id) (ap ok rest))
    ]
