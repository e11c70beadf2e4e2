-- ===== src/ExternalStatus/Examples.antt =====
-- A status that an authority reports on the sample attempt, twice.
use sps_v.Common.{
  String, ◌≡◌, refl, false, none, some, List, [], ◌∷◌, string_eq, find, filter, elem, Result, ok,
}
use sps_v.Common.Text.{sorted_set}
use sps_v.Contracts.Enums.{ExternalStatusClass, ExternalStatusConfidence}
use sps_v.Db.{Database, ExternalStatusEvent, SubmissionAttempt}
use sps_v.Db.Samples.{empty, sample_case}
use sps_v.Records.{get_attempt, get_row, persist, violates, commit}
use sps_v.ExternalStatus.{
  StatusMappingEntry, StatusMappingSelection, ExternalStatusNormalizationRequest, value_of,
  external_status_events, event_row, normalize, persist_external_status_event,
}
use sps_v.ExternalStatus.Fixtures.{
  SubmissionAdapterFixture, StatusMappingFixture, only, resolve_phase7_fixture_case_id,
  resolve_adapter_family_for_case, index_status_mappings, select_status_mapping_for_case,
}
use sps_v.ExternalStatus.Stored.{persist-persist_event}
use sps_v.ExternalStatus.Reports.{IsReport, persist_external_status_event-IsReport}

abbrev entry : StatusMappingEntry
entry = record {
  raw_status = "In Review";
  normalized_status = "IN_REVIEW";
  confidence = "HIGH";
  auto_advance = false;
  required_evidence = "proof" ∷ [];
}

abbrev inputs : List SubmissionAdapterFixture
inputs = record { case_id = "case-1"; target_portal_family = "family" } ∷ []

abbrev maps : List StatusMappingFixture
maps = record { adapter_family = "family"; mapping_version = "v1"; mappings = entry ∷ [] } ∷ []

abbrev selection : StatusMappingSelection
selection = record {
  adapter_family = "family";
  mapping_version = "v1";
  mappings = ("In Review", entry) ∷ [];
}

selects : select_status_mapping_for_case none inputs maps "case-1" ≡ ok selection
unfolding select_status_mapping_for_case resolve_adapter_family_for_case
    resolve_phase7_fixture_case_id only index_status_mappings find filter elem
selects = refl

abbrev load : String → Result StatusMappingSelection
load case_id = ok selection

abbrev report : ExternalStatusNormalizationRequest
report = record {
  event_id = "status-1";
  case_id = "case-1";
  submission_attempt_id = "attempt-1";
  raw_status = "In Review";
  received_at = none;
  evidence_ids = "proof" ∷ "photo" ∷ [];
}

abbrev event : ExternalStatusEvent
event = record {
  event_id = "status-1";
  case_id = "case-1";
  submission_attempt_id = "attempt-1";
  raw_status = "In Review";
  normalized_status = ExternalStatusClass.in_review;
  confidence = ExternalStatusConfidence.high;
  auto_advance_eligible = false;
  evidence_ids = "photo" ∷ "proof" ∷ [];
  mapping_version = "v1";
  received_at = 5;
}

normalizes : normalize load 5 report ≡ ok event
unfolding normalize value_of event_row sorted_set
normalizes = refl

abbrev attempt : SubmissionAttempt
attempt = record {
  submission_attempt_id = "attempt-1";
  case_id = "case-1";
  package_id = "package-1";
  manifest_artifact_id = "manifest-1";
  target_portal_family = "family";
  portal_support_level = "FULLY_SUPPORTED";
  request_id = "request-1";
  idempotency_key = "submit/case-1/attempt-1";
  attempt_number = 1;
  status = "SUBMITTED";
  outcome = none;
  external_tracking_id = none;
  receipt_artifact_id = none;
  submitted_at = some 5;
  failure_class = none;
}

abbrev before : Database
before = record empty { permit_cases = sample_case ∷ []; submission_attempts = attempt ∷ [] }

abbrev after : Database
after = record before { external_status_events = event ∷ [] }

stores : persist_external_status_event load (λ d. d) 5 report before ≡ (ok event, after)
unfolding persist_external_status_event normalize value_of event_row sorted_set persist get_row
    violates commit find
stores = refl

absent : get_row external_status_events "status-1" before ≡ none
unfolding get_row find
absent = refl

persist_external_status_event-IsReport_example :
    IsReport load 5 report event
    × (get_row external_status_events "status-1" after ≡ some event)
    × ((a : SubmissionAttempt) × (get_attempt "attempt-1" before ≡ some a) × (a.case_id ≡ "case-1"))
persist_external_status_event-IsReport_example =
    persist_external_status_event-IsReport load 5 report before after event stores absent

-- The same event at a later time.
abbrev later_event : ExternalStatusEvent
later_event = record event { received_at = 9 }

normalizes_later : normalize load 9 report ≡ ok later_event
unfolding normalize value_of event_row sorted_set
normalizes_later = refl

persist-persist_event_example :
    persist_external_status_event load (λ d. d) 9 report after ≡ (ok event, after)
persist-persist_event_example =
    persist-persist_event load (λ d. d) 5 report before after event stores load (λ d. d) 9 report
      later_event after refl normalizes_later refl
