-- ===== src/Db/Samples.antt =====
-- The empty database, from which the examples start, and a case.
use sps_v.Common.{[], none, false}
use sps_v.Contracts.CaseState.{review_pending}
use sps_v.Db.Cases.{PermitCase}
use sps_v.Db.Tables.{Database}

abbrev pub empty : Database
empty = record {
  permit_cases = [];
  projects = [];
  jurisdiction_resolutions = [];
  requirement_sets = [];
  compliance_evaluations = [];
  incentive_assessments = [];
  review_decisions = [];
  contradiction_artifacts = [];
  dissent_artifacts = [];
  case_transition_ledger = [];
  emergency_records = [];
  override_artifacts = [];
  submission_packages = [];
  document_artifacts = [];
  external_status_events = [];
  submission_attempts = [];
  manual_fallback_packages = [];
  correction_tasks = [];
  resubmission_packages = [];
  approval_records = [];
  inspection_milestones = [];
  audit_events = [];
  evidence_artifacts = [];
  legal_holds = [];
  legal_hold_bindings = [];
  release_bundles = [];
  release_artifacts = [];
}

abbrev pub sample_case : PermitCase
sample_case = record {
  case_id = "case-1";
  tenant_id = "tenant";
  project_id = "project";
  case_state = review_pending;
  review_state = "PENDING";
  submission_mode = "AUTOMATED";
  portal_support_level = "FULLY_SUPPORTED";
  current_package_id = none;
  current_release_profile = "default";
  legal_hold = false;
  closure_reason = none;
}
