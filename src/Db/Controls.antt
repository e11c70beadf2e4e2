-- ===== src/Db/Controls.antt =====
-- src/sps/db/models_controls.py
use sps_v.Common.{String, Bool, Option, List}
use sps_v.Common.Time.{Datetime}

pub record EmergencyRecord : Type 0 where
  pub emergency_id : String
  pub incident_id : String
  pub case_id : String
  pub scope : String
  pub declared_by : String
  pub started_at : Datetime
  pub expires_at : Datetime
  pub allowed_bypasses : Option (List String)
  pub forbidden_bypasses : Option (List String)
  pub cleanup_due_at : Option Datetime

pub record OverrideArtifact : Type 0 where
  pub override_id : String
  pub case_id : String
  pub scope : String
  pub justification : String
  pub start_at : Datetime
  pub expires_at : Datetime
  pub affected_surfaces : List String
  pub approver_id : String
  pub cleanup_required : Bool
