-- ===== src/Db/Cases.antt =====
-- src/sps/db/models_case_data.py. The JSONB columns, the server's timestamps and the columns that
-- no modelled code reads or writes are left out.
use sps_v.Common.{String, Bool, Option, List}
use sps_v.Common.Time.{Datetime}
use sps_v.Contracts.CaseState.{CaseState}

-- `case_state` is the text of a `CaseState`: every writer stores the `value` of a member.
pub record PermitCase : Type 0 where
  pub case_id : String
  pub tenant_id : String
  pub project_id : String
  pub case_state : CaseState
  pub review_state : String
  pub submission_mode : String
  pub portal_support_level : String
  pub current_package_id : Option String
  pub current_release_profile : String
  pub legal_hold : Bool
  pub closure_reason : Option String

pub record Project : Type 0 where
  pub project_id : String
  pub case_id : String
  pub address : String
  pub project_type : String

pub record JurisdictionResolution : Type 0 where
  pub jurisdiction_resolution_id : String
  pub case_id : String
  pub support_level : String
  pub evidence_ids : List String

pub record RequirementSet : Type 0 where
  pub requirement_set_id : String
  pub case_id : String
  pub freshness_state : String
  pub freshness_expires_at : Datetime
  pub contradiction_state : String
  pub evidence_ids : List String

pub record ComplianceEvaluation : Type 0 where
  pub compliance_evaluation_id : String
  pub case_id : String
  pub schema_version : String
  pub evaluated_at : Datetime

pub record IncentiveAssessment : Type 0 where
  pub incentive_assessment_id : String
  pub case_id : String
  pub schema_version : String
  pub assessed_at : Datetime
  pub eligibility_status : String
