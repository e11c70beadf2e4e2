-- ===== src/ExternalStatus.antt =====
-- `persist_external_status_event` of src/sps/workflows/permit_case/activities_impl.py, which normalizes
-- what an authority reports and stores it. Its body is that of the activities for records; the
-- adapters, which say how the statuses of a case are mapped, are a parameter.
pub mod Fixtures
pub mod Stored
pub mod Reports
mod Examples
use mathlib.Core.List.{◌++◌ as ◌++ᴸ◌}
use sps_v.Common.{
  ℕ, String, ◌≡◌, refl, Bool, true, false, Option, none, some, List, [], ◌∷◌, ◌==◌, string_eq,
  if◌then◌else◌, find, Result, ok, err, Error, ◌>>=◌,
}
use sps_v.Common.Text.{sorted_set}
use sps_v.Common.Time.{Datetime, to_utc}
use sps_v.Contracts.Enums.{ExternalStatusClass, ExternalStatusConfidence}
use sps_v.Db.{Database, ExternalStatusEvent}
use sps_v.Records.{RecordTable, get_row, persist}

-- The fields that the activity reads.
pub record StatusMappingEntry : Type 0 where
  pub raw_status : String
  pub normalized_status : String
  pub confidence : String
  pub auto_advance : Bool
  pub required_evidence : List String

-- `mappings` is a dictionary by the raw status.
pub record StatusMappingSelection : Type 0 where
  pub adapter_family : String
  pub mapping_version : String
  pub mappings : List (String × StatusMappingEntry)

pub record ExternalStatusNormalizationRequest : Type 0 where
  pub event_id : String
  pub case_id : String
  pub submission_attempt_id : String
  pub raw_status : String
  pub received_at : Option Datetime
  pub evidence_ids : List String

-- The values of the enumerations.
abbrev pub status_values : List (String × ExternalStatusClass)
status_values =
    ("RECEIVED_UNCONFIRMED", ExternalStatusClass.received_unconfirmed)
    ∷ ("RECEIVED_CONFIRMED", ExternalStatusClass.received_confirmed)
    ∷ ("IN_REVIEW", ExternalStatusClass.in_review)
    ∷ ("COMMENT_ISSUED", ExternalStatusClass.comment_issued)
    ∷ ("RESUBMISSION_REQUESTED", ExternalStatusClass.resubmission_requested)
    ∷ ("APPROVAL_REPORTED", ExternalStatusClass.approval_reported)
    ∷ ("APPROVAL_CONFIRMED", ExternalStatusClass.approval_confirmed)
    ∷ ("APPROVAL_PENDING_INSPECTION", ExternalStatusClass.approval_pending_inspection)
    ∷ ("APPROVAL_FINAL", ExternalStatusClass.approval_final)
    ∷ ("INSPECTION_SCHEDULED", ExternalStatusClass.inspection_scheduled)
    ∷ ("INSPECTION_PASSED", ExternalStatusClass.inspection_passed)
    ∷ ("INSPECTION_FAILED", ExternalStatusClass.inspection_failed)
    ∷ ("REJECTION_REPORTED", ExternalStatusClass.rejection_reported)
    ∷ ("WITHDRAWN_REPORTED", ExternalStatusClass.withdrawn_reported)
    ∷ ("CLOSED_REPORTED", ExternalStatusClass.closed_reported)
    ∷ ("UNKNOWN_EXTERNAL_STATUS", ExternalStatusClass.unknown_external_status)
    ∷ ("CONTRADICTORY_EXTERNAL_STATUS", ExternalStatusClass.contradictory_external_status)
    ∷ []

abbrev pub confidence_values : List (String × ExternalStatusConfidence)
confidence_values =
    ("HIGH", ExternalStatusConfidence.high)
    ∷ ("MEDIUM", ExternalStatusConfidence.medium)
    ∷ ("LOW", ExternalStatusConfidence.low)
    ∷ ("NONE", ExternalStatusConfidence.no_confidence)
    ∷ []

-- The first pair with the text, or a `ValueError`: the call of an enumeration, and `get` of a
-- dictionary whose missing key is one.
pub value_of : {A : Type 0} → List (String × A) → String → Result A
value_of [] s = err Error.value_error
value_of ((t, a) ∷ rest) s = let later = value_of rest s in if t == s then ok a else later

abbrev pub external_status_events : RecordTable ExternalStatusEvent
external_status_events = record {
  rows = λ db. db.external_status_events;
  set_rows = λ xs db. record db { external_status_events = xs };
  key = λ r. r.event_id;
  case_of = λ r. r.case_id;
  attempt_of = λ r. r.submission_attempt_id;
  rows-set_rows = λ xs db. refl;
  cases-set_rows = λ xs db. refl;
  attempts-set_rows = λ xs db. refl;
}

-- `req.received_at`, or the time of the activity.
abbrev received_or : Option Datetime → ℕ → ℕ
received_or none now = now
received_or (some t) now = to_utc t

pub event_row :
    ExternalStatusNormalizationRequest
    → ℕ
    → String
    → StatusMappingEntry
    → ExternalStatusClass
    → ExternalStatusConfidence
    → ExternalStatusEvent
event_row req now version mapping normalized confidence = record {
  event_id = req.event_id;
  case_id = req.case_id;
  submission_attempt_id = req.submission_attempt_id;
  raw_status = req.raw_status;
  normalized_status = normalized;
  confidence = confidence;
  auto_advance_eligible = mapping.auto_advance;
  evidence_ids = sorted_set (req.evidence_ids ++ᴸ mapping.required_evidence);
  mapping_version = version;
  received_at = received_or req.received_at now;
}

-- From the request to the event, or to a `ValueError`; it reads no table.
pub normalize :
    (String → Result StatusMappingSelection)
    → ℕ
    → ExternalStatusNormalizationRequest
    → Result ExternalStatusEvent
normalize load_status_mapping now req = load_status_mapping req.case_id >>= λ selection.
    value_of selection.mappings req.raw_status >>= λ mapping.
    value_of status_values mapping.normalized_status >>= λ normalized.
    value_of confidence_values mapping.confidence >>= λ confidence.
    ok (event_row req now selection.mapping_version mapping normalized confidence)

-- The row under an identifier, of whose columns the result is made.
abbrev row_of : Option ExternalStatusEvent → Result ExternalStatusEvent
row_of none = err Error.runtime_error
row_of (some row) = ok row

abbrev stored_row : Result String × Database → Result ExternalStatusEvent × Database
stored_row (err e, db) = (err e, db)
stored_row (ok id, db) = (row_of (get_row external_status_events id db), db)

-- The activity at the time `now`; `others` is what other transactions commit between its reads and its
-- commit.
pub persist_external_status_event :
    (String → Result StatusMappingSelection)
    → (Database → Database)
    → ℕ
    → ExternalStatusNormalizationRequest
    → Database
    → Result ExternalStatusEvent × Database
persist_external_status_event load_status_mapping others now req db =
    elim (normalize load_status_mapping now req) [
      | err e ↦ (err e, db)
      | ok row ↦ stored_row (persist external_status_events others row db)
    ]
