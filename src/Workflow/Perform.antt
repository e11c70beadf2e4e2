-- ===== src/Workflow/Perform.antt =====
-- One attempt of an activity that the workflow calls.
use sps_v.Common.{ℕ, List, Result}
use sps_v.Db.{
  Database, JurisdictionResolution, RequirementSet, ComplianceEvaluation, IncentiveAssessment,
}
use sps_v.Cases
use sps_v.Emergencies
use sps_v.Evidence
use sps_v.Guard.Apply.{World, Env, attempt}
use sps_v.Packages
use sps_v.Packages.{RegisteredPackage}
use sps_v.Records
use sps_v.Submission
use sps_v.Submission.{Delivery}
use sps_v.Workflow.{Call, Answer}

-- What an attempt takes from outside: what other transactions commit in its gaps, the guard's
-- registry, the adapters' records, the registered package, the delivery, and the time.
pub record Context : Type 0 where
  pub others : Database → Database
  pub racing : Database → Database
  pub env : Env
  pub jurisdictions : List JurisdictionResolution
  pub requirements : List RequirementSet
  pub evaluations : List ComplianceEvaluation
  pub assessments : List IncentiveAssessment
  pub built : RegisteredPackage
  pub delivery : Delivery
  pub time : ℕ

-- An activity that works on the database only.
abbrev pub on_db : {A : Type 0} → (Database → Result A × Database) → World → Result A × World
on_db f w = let (r, db) = f w.db in (r, record w { db = db })

-- One that only reads it.
abbrev pub reading : {A : Type 0} → (Database → Result A) → World → Result A × World
reading f w = (f w.db, w)

unfoldable pub perform : Context → (c : Call) → World → Result (Answer c) × World
perform x (Call.ensure_permit_case_exists id) = on_db (Cases.ensure_permit_case_exists x.others id)
perform x (Call.fetch_permit_case_state id) = reading (Cases.fetch_permit_case_state id)
perform x (Call.apply_state_transition req) = attempt x.env x.others req
perform x (Call.persist_jurisdiction_resolutions req) =
    on_db (Evidence.persist_jurisdiction_resolutions x.others x.jurisdictions req)
perform x (Call.persist_requirement_sets req) =
    on_db (Evidence.persist_requirement_sets x.others x.requirements req)
perform x (Call.persist_compliance_evaluation req) =
    on_db (Evidence.persist_compliance_evaluation x.others x.evaluations req)
perform x (Call.persist_incentive_assessment req) =
    on_db (Evidence.persist_incentive_assessment x.others x.assessments req)
perform x (Call.persist_submission_package req) =
    on_db (Packages.persist_submission_package x.others x.racing x.built req)
perform x (Call.deterministic_submission_adapter req) =
    on_db (Submission.deterministic_submission_adapter x.delivery req x.others)
perform x (Call.persist_correction_task req) = on_db (Records.persist_correction_task x.others req)
perform x (Call.persist_resubmission_package req) =
    on_db (Records.persist_resubmission_package x.others req)
perform x (Call.persist_approval_record req) = on_db (Records.persist_approval_record x.others req)
perform x (Call.persist_inspection_milestone req) =
    on_db (Records.persist_inspection_milestone x.others req)
perform x (Call.validate_emergency_artifact id) =
    reading (Emergencies.validate_emergency_artifact x.time id)
perform x (Call.validate_reviewer_confirmation id) =
    reading (Cases.validate_reviewer_confirmation id)
