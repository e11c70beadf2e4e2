-- ===== src/Emergencies/Examples.antt =====
-- An emergency for which no duration was asked.
use sps_v.Common.{◌+◌, ◌≤◌, ◌<◌, ◌≡◌, ◌↔◌, refl, none, [], ◌∷◌, find, ok}
use sps_v.Common.Time.{to_utc, hours}
use sps_v.Db.{Database, EmergencyRecord}
use sps_v.Db.Samples.{empty, sample_case}
use sps_v.Emergencies.Limit.{create_emergency-validate_emergency_artifact}
use sps_v.Emergencies.{
  CreateEmergencyRequest, Reply, row_to_response, is_valid_request, duration_or_limit,
  exceeds_limit, add_hours, new_row, violates, insert, create_emergency,
  validate_emergency_artifact,
}

abbrev sample_db : Database
sample_db = record empty { permit_cases = sample_case ∷ [] }

abbrev sample_request : CreateEmergencyRequest
sample_request = record {
  incident_id = "incident-1";
  case_id = "case-1";
  scope = "city";
  allowed_bypasses = [];
  forbidden_bypasses = [];
  duration_hours = none;
}

abbrev sample_row : EmergencyRecord
sample_row = new_row "EMERG-1" "owner" 5 (5 + hours 24) (5 + hours 24 + hours 24) sample_request

creation_done :
    (create_emergency "1" "owner" 5 sample_request sample_db).0
    ≡ Reply.created (row_to_response sample_row)
unfolding create_emergency is_valid_request duration_or_limit exceeds_limit add_hours insert
    violates new_row find
creation_done = refl

create_emergency-validate_emergency_artifact_example :
    ((validate_emergency_artifact 7 sample_row.emergency_id
          (create_emergency "1" "owner" 5 sample_request sample_db).1
        ≡ ok sample_row.emergency_id)
      ↔ (7 < to_utc sample_row.expires_at))
    × (to_utc sample_row.expires_at ≤ 5 + hours 24)
create_emergency-validate_emergency_artifact_example =
    create_emergency-validate_emergency_artifact "1" "owner" 5 7 sample_request sample_db
      (row_to_response sample_row) creation_done
