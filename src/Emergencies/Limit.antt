-- ===== src/Emergencies/Limit.antt =====
-- For how long an emergency holds.
use Prim.Native.String.{◌++◌}
use sps_v.Common.{
  ℕ, ◌+◌, ◌≤◌, ◌<◌, String, ◌≡◌, ◌↔◌, refl, sym, ap, ◌∙◌, false, some, ◌==◌, string_eq, arith,
  Bool-cases, Option-cases, inl, inr, find-append_new, str_refl, ok,
}
use sps_v.Common.Time.{aware, to_utc, hours}
use sps_v.Db.{Database, EmergencyRecord}
use sps_v.Emergencies.{
  ℤ, pos, negsuc, CreateEmergencyRequest, EmergencyResponse, Reply, row_to_response,
  is_valid_request, duration_or_limit, exceeds_limit, add_hours, new_row, get_emergency, violates,
  insert, create_emergency, validate_emergency_artifact,
}

add_hours-le :
    (now at : ℕ) (d : ℤ) → exceeds_limit d ≡ false → add_hours now d ≡ some at → at ≤ now + hours 24
unfolding exceeds_limit add_hours
add_hours-le now at (pos n) h e = ground arith
add_hours-le now at (negsuc n) h e = ground arith

insert-created :
    (row : EmergencyRecord) (req : CreateEmergencyRequest) (db : Database)
    (response : EmergencyResponse)
    → (insert row req db).0 ≡ Reply.created response
    → (response ≡ row_to_response row)
      × (get_emergency row.emergency_id (insert row req db).1 ≡ some row)
unfolding insert violates
insert-created row req db response made = elim (Bool-cases (violates row.emergency_id req db)) [
  | inl clash ↦ absurd (ground arith)
  | inr free ↦
      let found =
        find-append_new (λ e. e.emergency_id == row.emergency_id) db.emergency_records row
          (ground arith) (str_refl row.emergency_id) in
      (ground arith, ground (arith, found))
]

-- An emergency that was created is found, with the times of the response, at most 24 hours from
-- its start to its end.
created_record :
    (ulid subject : String) (now : ℕ) (req : CreateEmergencyRequest) (db : Database)
    (response : EmergencyResponse)
    → (create_emergency ulid subject now req db).0 ≡ Reply.created response
    → (at : ℕ) × (row : EmergencyRecord) × (get_emergency response.emergency_id
          (create_emergency ulid subject now req db).1
        ≡ some row)
      × (row.expires_at ≡ aware at)
      × (response.expires_at ≡ aware at)
      × (at ≤ now + hours 24)
unfolding create_emergency new_row
created_record ulid subject now req db response made =
    let d = duration_or_limit req.duration_hours in
    elim (Bool-cases (is_valid_request req)) [
      | inr invalid ↦ absurd (ground arith)
      | inl valid ↦ elim (Bool-cases (exceeds_limit d)) [
        | inl long ↦ absurd (ground arith)
        | inr short ↦ elim (Option-cases (add_hours now d)) [
          | inl out ↦ absurd (ground arith)
          | inr (at, ends) ↦ elim (Option-cases (add_hours at (pos 24))) [
            | inl out ↦ absurd (ground arith)
            | inr (cleanup, cleans) ↦
                let row = new_row ("EMERG-" ++ ulid) subject now at cleanup req in
                let step : create_emergency ulid subject now req db ≡ insert row req db =
                  ground arith in
                let (says, found) =
                  insert-created row req db response
                    (ap (λ (r : Reply × Database). r.0) (sym step) ∙ made) in
                (
                  at,
                  row,
                  rw (step, says) found,
                  refl,
                  ap (λ (r : EmergencyResponse). r.expires_at) says,
                  add_hours-le now at d short ends,
                )
          ]
        ]
      ]
    ]

-- However long was asked for, an emergency that was created is validated by the activity exactly
-- until its response says that it expires, and never 24 hours after its creation or later.
pub create_emergency-validate_emergency_artifact :
    (ulid subject : String) (now later : ℕ) (req : CreateEmergencyRequest) (db : Database)
    (response : EmergencyResponse)
    → (create_emergency ulid subject now req db).0 ≡ Reply.created response
    → ((validate_emergency_artifact later response.emergency_id
            (create_emergency ulid subject now req db).1
          ≡ ok response.emergency_id)
        ↔ (later < to_utc response.expires_at))
      × (to_utc response.expires_at ≤ now + hours 24)
unfolding validate_emergency_artifact
create_emergency-validate_emergency_artifact ulid subject now later req db response made =
    let (at, row, found, ends, says, le) = created_record ulid subject now req db response made in
    (
      (λ h. ground (arith, found, ends, says), λ h. ground (arith, found, ends, says)),
      ground (arith, says),
    )
