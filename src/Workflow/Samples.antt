-- ===== src/Workflow/Samples.antt =====
-- Sample worlds and contexts for the examples of the workflow.
use sps_v.Common.{refl, false, none, [], ◌∷◌}
use sps_v.Db.{Database}
use sps_v.Db.Samples.{empty, sample_case}
use sps_v.Diagram.{Leads-same}
use sps_v.Failpoints.{Failpoints}
use sps_v.Guard.Apply.{World}
use sps_v.Workflow.{Info}
use sps_v.Workflow.Perform.{Context}
use sps_v.Workflow.Steps.{IsOrderly}

abbrev pub quiet : Failpoints
quiet = record { is_enabled = false; enabled_keys = []; fired_keys = []; seen_counts = λ k. 0 }

abbrev pub sample_world : World
sample_world = record { db = record empty { permit_cases = sample_case ∷ [] }; failpoints = quiet }

abbrev pub info : Info
info = record { workflow_id = "permit-case/case-1"; run_id = "run" }

abbrev pub context : Context
context = record {
  others = λ db. db;
  racing = λ db. db;
  env = record { registry = []; audit_event_id = "event-1" };
  jurisdictions = [];
  requirements = [];
  evaluations = [];
  assessments = [];
  built = record {
    package_id = "PKG-1";
    package_version = "1.0.0";
    manifest_artifact_id = "ART-1";
    manifest_sha256_digest = "digest";
    documents = [];
    created_at = 1;
  };
  delivery = record { plan = none; receipt = none; submitted_at = 1; created_at = 1 };
  time = 1;
}

pub orderly : (db : Database) → IsOrderly context db
orderly db = record { others_lead = λ id. Leads-same id db db refl; racing_stays = λ id. refl }
