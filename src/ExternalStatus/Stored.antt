-- ===== src/ExternalStatus/Stored.antt =====
-- An event is stored once, as it was normalized first.
use sps_v.Common.{
  ℕ, String, ◌≡◌, refl, sym, ◌∙◌, ap, subst, inl, inr, Option, none, some, string_eq, Result, ok,
  err, Result-cases, arith,
}
use sps_v.Db.{Database, ExternalStatusEvent}
use sps_v.Records.{get_row, persist}
use sps_v.Records.Once.{persist-persist, persist_stored, get_row-persist}
use sps_v.ExternalStatus.{
  StatusMappingSelection, ExternalStatusNormalizationRequest, status_values, confidence_values,
  value_of, external_status_events, event_row, normalize, row_of, stored_row,
  persist_external_status_event,
}

-- The event that a request is normalized to has the request's identifiers.
event_id-normalize :
    (load : String → Result StatusMappingSelection) (now : ℕ)
    (req : ExternalStatusNormalizationRequest) (row : ExternalStatusEvent)
    → normalize load now req ≡ ok row
    → row.event_id ≡ req.event_id
unfolding normalize event_row
event_id-normalize load now req row e = elim (Result-cases (load req.case_id)) [
  | inl (x, failed) ↦ absurd (ground arith)
  | inr (selection, loaded) ↦ elim (Result-cases (value_of selection.mappings req.raw_status)) [
    | inl (x, failed) ↦ absurd (ground arith)
    | inr (mapping, mapped) ↦
        elim (Result-cases (value_of status_values mapping.normalized_status)) [
          | inl (x, failed) ↦ absurd (ground arith)
          | inr (normalized, known) ↦
              elim (Result-cases (value_of confidence_values mapping.confidence)) [
                | inl (x, failed) ↦ absurd (ground arith)
                | inr (confidence, rated) ↦ ground arith
              ]
        ]
  ]
]

row_cases :
    (o : Option ExternalStatusEvent) (row : ExternalStatusEvent) → row_of o ≡ ok row → o ≡ some row
row_cases none row e = absurd (cc)
row_cases (some r) row e = ground arith

stored_cases :
    (p : Result String × Database) (row : ExternalStatusEvent) (db' : Database)
    → stored_row p ≡ (ok row, db')
    → (id : String) × (p ≡ (ok id, db')) × (get_row external_status_events id db' ≡ some row)
stored_cases (err x, db) row db' e = absurd (cc (ap (λ p. p.0) e))
stored_cases (ok id, db) row db' e =
    let there = row_cases (get_row external_status_events id db) row (ap (λ p. p.0) e) in
    let same : db ≡ db' = ap (λ p. p.1) e in
    (
      id,
      ap (λ d. (ok id, d)) same,
      subst (λ d. get_row external_status_events id d ≡ some row) same there,
    )

module _ (load : String → Result StatusMappingSelection) (others : Database → Database) (now : ℕ)
    (req : ExternalStatusNormalizationRequest) (db db' : Database) (row : ExternalStatusEvent)
    (e : persist_external_status_event load others now req db ≡ (ok row, db')) where
  -- How an activity returns.
  pub returned :
      (new : ExternalStatusEvent) × (normalize load now req ≡ ok new)
      × (id : String) × (persist external_status_events others new db ≡ (ok id, db'))
      × (get_row external_status_events id db' ≡ some row)
  unfolding persist_external_status_event
  returned = elim (Result-cases (normalize load now req)) [
    | inl (x, failed) ↦ absurd (ground arith)
    | inr (new, made) ↦
        let (id, stored, there) =
          stored_cases (persist external_status_events others new db) row db' (
            subst
              (λ r.
                elim r [
                  | err x ↦ (err x, db)
                  | ok n ↦ stored_row (persist external_status_events others n db)
                ]
                ≡ (ok row, db'))
              made e) in
        (new, made, id, stored, there)
  ]

  -- Once an event has been stored or found, a later activity for the same event, whatever it reports,
  -- as long as the mapping of its case knows that, on a database that has the same row there, returns
  -- the same and writes nothing.
  pub persist-persist_event :
      (load' : String → Result StatusMappingSelection) (others' : Database → Database) (now' : ℕ)
      (req' : ExternalStatusNormalizationRequest) (new' : ExternalStatusEvent) (later : Database)
      → req'.event_id ≡ req.event_id
      → normalize load' now' req' ≡ ok new'
      → get_row external_status_events req.event_id later
        ≡ get_row external_status_events req.event_id db'
      → persist_external_status_event load' others' now' req' later ≡ (ok row, later)
  unfolding persist_external_status_event
  persist-persist_event load' others' now' req' new' later same made' kept =
      let (new, made, id, stored, there) = returned in
      let key = event_id-normalize load now req new made in
      let key' = event_id-normalize load' now' req' new' made' in
      let (name, found) = persist_stored external_status_events others new db db' id stored in
      let id_is : id ≡ req.event_id = name ∙ key in
      let again =
        persist-persist external_status_events others new db db' id stored others' new' later
          (key' ∙ (same ∙ sym key)) (rw key kept) in
      let read : get_row external_status_events id later ≡ some row =
        subst (λ k. get_row external_status_events k later ≡ get_row external_status_events k db')
          (sym id_is) kept
        ∙ there in
      rw (persist_external_status_event, made', again, read) refl

-- An event that was not there, and that an activity stores alone, is what the request was normalized
-- to, and is the row of its identifier.
pub normalize-persist :
    (load : String → Result StatusMappingSelection) (now : ℕ)
    (req : ExternalStatusNormalizationRequest) (db db' : Database) (row : ExternalStatusEvent)
    → persist_external_status_event load (λ d. d) now req db ≡ (ok row, db')
    → get_row external_status_events req.event_id db ≡ none
    → (normalize load now req ≡ ok row)
      × (get_row external_status_events req.event_id db' ≡ some row)
normalize-persist load now req db db' row e new_one =
    let (new, made, id, stored, there) = returned load (λ d. d) now req db db' row e in
    let key = event_id-normalize load now req new made in
    let (name, found) = persist_stored external_status_events (λ d. d) new db db' id stored in
    let own = get_row-persist external_status_events new db db' id (rw key new_one) stored in
    let same : new ≡ row = ground arith in
    (
      made ∙ ap ok same,
      subst (λ k. get_row external_status_events k db' ≡ some row) (name ∙ key) there,
    )
