-- ===== src/Workflow/Refines.antt =====
-- Every step of the workflow moves the cases along the diagram, if at all.
use sps_v.Common.{String, map}
use sps_v.Cases.Moves.{ensure_permit_case_exists-Leads}
use sps_v.Diagram.{Leads, Leads-cases, stay}
use sps_v.Evidence
use sps_v.Evidence.{Reread}
use sps_v.Evidence.Gates.{cases-persist_all}
use sps_v.Guard.Apply.{World}
use sps_v.Guard.Apply.Leads.{attempt-Leads}
use sps_v.Packages.Moves.{persist_submission_package-Leads}
use sps_v.Records
use sps_v.Records.Once.{cases-persist}
use sps_v.Submission.Distinct.{adapter-Leads}
use sps_v.Workflow.{Call, Info, Self, Prog}
use sps_v.Workflow.Perform.{Context, perform}
use sps_v.Workflow.Steps.{
  IsOrderly, Turn, reads, assigns, asks, wakes, answers, retries, fails, Config, Step, main_turn,
  handler_turn, arrives, outside,
}

-- One attempt of an activity, whatever it returns.
pub perform-Leads :
    (x : Context) (c : Call) (w : World)
    → IsOrderly x w.db
    → (id : String) → Leads id w.db (perform x c w).1.db
unfolding perform
perform-Leads x (Call.ensure_permit_case_exists made) w o id =
    ensure_permit_case_exists-Leads x.others made id w.db (o.others_lead id)
perform-Leads x (Call.fetch_permit_case_state made) w o id = stay
perform-Leads x (Call.apply_state_transition req) w o id =
    attempt-Leads x.env x.others req w id (o.others_lead id)
perform-Leads x (Call.persist_jurisdiction_resolutions req) w o id =
    Leads-cases id w.db (x.others w.db) _ (o.others_lead id) (
      cases-persist_all Evidence.jurisdiction_resolutions (Reread.of_case req.case_id) x.others
        x.jurisdictions w.db)
perform-Leads x (Call.persist_requirement_sets req) w o id =
    Leads-cases id w.db (x.others w.db) _ (o.others_lead id) (
      cases-persist_all Evidence.requirement_sets (Reread.of_case req.case_id) x.others
        (map Evidence.requirement_set x.requirements) w.db)
perform-Leads x (Call.persist_compliance_evaluation req) w o id =
    Leads-cases id w.db (x.others w.db) _ (o.others_lead id) (
      cases-persist_all Evidence.compliance_evaluations Reread.of_records x.others
        (map Evidence.compliance_evaluation x.evaluations) w.db)
perform-Leads x (Call.persist_incentive_assessment req) w o id =
    Leads-cases id w.db (x.others w.db) _ (o.others_lead id) (
      cases-persist_all Evidence.incentive_assessments Reread.of_records x.others
        (map Evidence.incentive_assessment x.assessments) w.db)
perform-Leads x (Call.persist_submission_package req) w o id =
    persist_submission_package-Leads x.others x.racing x.built req id w.db (o.others_lead id)
      o.racing_stays
perform-Leads x (Call.deterministic_submission_adapter req) w o id =
    adapter-Leads x.delivery req x.others id w.db (o.others_lead id)
perform-Leads x (Call.persist_correction_task req) w o id =
    Leads-cases id w.db (x.others w.db) _ (o.others_lead id)
      (cases-persist Records.correction_tasks x.others (Records.correction_task req) w.db)
perform-Leads x (Call.persist_resubmission_package req) w o id =
    Leads-cases id w.db (x.others w.db) _ (o.others_lead id)
      (cases-persist Records.resubmission_packages x.others (Records.resubmission_package req) w.db)
perform-Leads x (Call.persist_approval_record req) w o id =
    Leads-cases id w.db (x.others w.db) _ (o.others_lead id)
      (cases-persist Records.approval_records x.others (Records.approval_record req) w.db)
perform-Leads x (Call.persist_inspection_milestone req) w o id =
    Leads-cases id w.db (x.others w.db) _ (o.others_lead id)
      (cases-persist Records.inspection_milestones x.others (Records.inspection_milestone req) w.db)
perform-Leads x (Call.validate_emergency_artifact made) w o id = stay
perform-Leads x (Call.validate_reviewer_confirmation made) w o id = stay

Turn-Leads :
    {A : Type 0} {s s' : Self} {w w' : World} {p p' : Prog A}
    → Turn s w p s' w' p'
    → (id : String) → Leads id w.db w'.db
Turn-Leads (reads s w k) id = stay
Turn-Leads (assigns s w f p) id = stay
Turn-Leads (asks s w t k) id = stay
Turn-Leads (wakes s w p h) id = stay
Turn-Leads (answers x s w c a k o e) id = perform-Leads x c w o id
Turn-Leads (retries x s w c k o h) id = perform-Leads x c w o id
Turn-Leads (fails x s w c k o h) id = perform-Leads x c w o id

pub Step-Leads :
    {info : Info} {c d : Config} → Step info c d → (id : String) → Leads id c.world.db d.world.db
Step-Leads (main_turn t) id = Turn-Leads t id
Step-Leads (handler_turn before after t) id = Turn-Leads t id
Step-Leads (arrives signal) id = stay
Step-Leads (outside v lead) id = lead id
