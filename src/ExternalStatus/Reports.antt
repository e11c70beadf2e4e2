-- ===== src/ExternalStatus/Reports.antt =====
-- What a stored event says of the report and of the mapping of its case.
use sps_v.Common.{
  ℕ, String, ◌≡◌, refl, ◌∙◌, subst, inl, inr, ◌||◌, Bool-cases, none, some, Option-cases, List, [],
  ◌∷◌, ◌==◌, string_eq, eq_iff, find, elem, Result, ok, Result-cases, arith,
}
use sps_v.Common.Text.Sets.{IsIncreasing, sorted_set-IsIncreasing, elem-sorted_set, elem-append}
use sps_v.Common.Time.{Datetime, to_utc}
use sps_v.Contracts.Enums.{ExternalStatusClass, ExternalStatusConfidence}
use sps_v.Db.{Database, ExternalStatusEvent, SubmissionAttempt}
use sps_v.Records.{get_row, get_attempt, persist}
use sps_v.Records.Once.{persist-cases}
use sps_v.ExternalStatus.Stored.{returned, normalize-persist}
use sps_v.ExternalStatus.{
  StatusMappingEntry, StatusMappingSelection, ExternalStatusNormalizationRequest, status_values,
  confidence_values, value_of, external_status_events, event_row, normalize,
  persist_external_status_event,
}

-- The first pair with this text has this value.
abbrev pub Gives : {A : Type 0} → List (String × A) → String → A → Type 0
Gives pairs s a = find (λ p. p.0 == s) pairs ≡ some (s, a)

value_of-Gives :
    {A : Type 0} (pairs : List (String × A)) (s : String) (a : A)
    → value_of pairs s ≡ ok a
    → Gives pairs s a
unfolding value_of find
value_of-Gives [] s a e = absurd (cc)
value_of-Gives ((t, b) ∷ rest) s a e = elim (Bool-cases (t == s)) [
  | inl here ↦
      let same : t ≡ s = ground (arith, eq_iff t s) in
      let value : b ≡ a = ground arith in rw (here, same, value) refl
  | inr other ↦ rw other (value_of-Gives rest s a (ground arith))
]

-- The event repeats what is reported, with the time of the activity where none is given, rates it as
-- the mapping of the case does, and lists the evidence of both, in increasing order.
pub record IsReport (load : String → Result StatusMappingSelection) (now : ℕ)
    (req : ExternalStatusNormalizationRequest) (row : ExternalStatusEvent) : Type 0 where
  pub selection : StatusMappingSelection
  pub mapping : StatusMappingEntry
  pub loaded : load req.case_id ≡ ok selection
  pub mapped : Gives selection.mappings req.raw_status mapping
  pub event_id : row.event_id ≡ req.event_id
  pub case_id : row.case_id ≡ req.case_id
  pub submission_attempt_id : row.submission_attempt_id ≡ req.submission_attempt_id
  pub raw_status : row.raw_status ≡ req.raw_status
  pub mapping_version : row.mapping_version ≡ selection.mapping_version
  pub normalized : Gives status_values mapping.normalized_status row.normalized_status
  pub rated : Gives confidence_values mapping.confidence row.confidence
  pub eligible : row.auto_advance_eligible ≡ mapping.auto_advance
  pub received_now : req.received_at ≡ none → row.received_at ≡ now
  pub received_at : (t : Datetime) → req.received_at ≡ some t → row.received_at ≡ to_utc t
  pub evidence :
      (s : String)
      → elem s row.evidence_ids ≡ (elem s req.evidence_ids || elem s mapping.required_evidence)
  pub increasing : IsIncreasing row.evidence_ids

event_row-IsReport :
    (load : String → Result StatusMappingSelection) (now : ℕ)
    (req : ExternalStatusNormalizationRequest) (selection : StatusMappingSelection)
    (mapping : StatusMappingEntry) (normalized : ExternalStatusClass)
    (rating : ExternalStatusConfidence)
    → load req.case_id ≡ ok selection
    → Gives selection.mappings req.raw_status mapping
    → Gives status_values mapping.normalized_status normalized
    → Gives confidence_values mapping.confidence rating
    → IsReport load now req (event_row req now selection.mapping_version mapping normalized rating)
unfolding event_row
event_row-IsReport load now req selection mapping normalized rating loaded mapped known rated =
    record {
      selection = selection;
      mapping = mapping;
      loaded = loaded;
      mapped = mapped;
      event_id = refl;
      case_id = refl;
      submission_attempt_id = refl;
      raw_status = refl;
      mapping_version = refl;
      normalized = known;
      rated = rated;
      eligible = refl;
      received_now = λ e. rw e refl;
      received_at = λ t e. rw e refl;
      evidence =
          λ s. elem-sorted_set s _ ∙ elem-append s req.evidence_ids mapping.required_evidence;
      increasing = sorted_set-IsIncreasing _;
    }

normalize-IsReport :
    (load : String → Result StatusMappingSelection) (now : ℕ)
    (req : ExternalStatusNormalizationRequest) (row : ExternalStatusEvent)
    → normalize load now req ≡ ok row
    → IsReport load now req row
unfolding normalize
normalize-IsReport load now req row e = elim (Result-cases (load req.case_id)) [
  | inl (x, failed) ↦ absurd (ground arith)
  | inr (selection, loaded) ↦ elim (Result-cases (value_of selection.mappings req.raw_status)) [
    | inl (x, failed) ↦ absurd (ground arith)
    | inr (mapping, mapped) ↦
        elim (Result-cases (value_of status_values mapping.normalized_status)) [
          | inl (x, failed) ↦ absurd (ground arith)
          | inr (normalized, known) ↦
              elim (Result-cases (value_of confidence_values mapping.confidence)) [
                | inl (x, failed) ↦ absurd (ground arith)
                | inr (confidence, rated) ↦
                    let is : event_row req now selection.mapping_version mapping normalized
                          confidence
                        ≡ row =
                      ground arith in
                    subst (IsReport load now req) is (
                      event_row-IsReport load now req selection mapping normalized confidence loaded
                        (value_of-Gives selection.mappings req.raw_status mapping mapped)
                        (value_of-Gives status_values mapping.normalized_status normalized known)
                        (value_of-Gives confidence_values mapping.confidence confidence rated))
              ]
        ]
  ]
]

attempt_found :
    (row : ExternalStatusEvent) (db db' : Database) (id : String)
    → persist external_status_events (λ d. d) row db ≡ (ok id, db')
    → get_row external_status_events row.event_id db ≡ none
    → (a : SubmissionAttempt) × (get_attempt row.submission_attempt_id db ≡ some a)
      × (a.case_id ≡ row.case_id)
attempt_found row db db' id e new_one =
    elim (persist-cases external_status_events (λ d. d) row db) [
      | inl (there, q) ↦ absurd (ground arith)
      | inr (inl q) ↦ absurd (cc)
      | inr (inr (new, own, q)) ↦ elim (Option-cases (get_attempt row.submission_attempt_id db)) [
        | inl missing ↦ absurd (ground arith)
        | inr (a, found) ↦ (a, found, ground (arith, eq_iff a.case_id row.case_id))
      ]
    ]

-- An event that was not there, and that an activity stores alone, is the row of its identifier
-- afterwards, on an attempt of the reported case. It repeats the identifiers and the status that are
-- reported, and the time, or that of the activity where none is given; it has the class, the
-- confidence and the eligibility that the mapping of the case has for the status, and lists exactly the
-- evidence of the report and of the mapping, each once in increasing order.
pub persist_external_status_event-IsReport :
    (load : String → Result StatusMappingSelection) (now : ℕ)
    (req : ExternalStatusNormalizationRequest) (db db' : Database) (row : ExternalStatusEvent)
    → persist_external_status_event load (λ d. d) now req db ≡ (ok row, db')
    → get_row external_status_events req.event_id db ≡ none
    → IsReport load now req row
      × (get_row external_status_events req.event_id db' ≡ some row)
      × ((a : SubmissionAttempt) × (get_attempt req.submission_attempt_id db ≡ some a)
          × (a.case_id ≡ req.case_id))
persist_external_status_event-IsReport load now req db db' row e new_one =
    let (made, stored) = normalize-persist load now req db db' row e new_one in
    let (new, made', id, inserted, there) = returned load (λ d. d) now req db db' row e in
    let report = normalize-IsReport load now req row made in
    let same : new ≡ row = ground arith in
    let (a, found, own) =
      attempt_found row db db' id
        (subst (λ r. persist external_status_events (λ d. d) r db ≡ (ok id, db')) same inserted)
        (rw report.event_id new_one) in
    let attempt_is = report.submission_attempt_id in
    let case_is = report.case_id in
    (report, stored, (a, subst (λ k. get_attempt k db ≡ some a) attempt_is found, own ∙ case_is))
