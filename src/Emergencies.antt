-- ===== src/Emergencies.antt =====
-- `create_emergency` of src/sps/api/routes/emergencies.py, with its contract in
-- src/sps/api/contracts/emergencies.py, and the activity `validate_emergency_artifact`. The ULID of
-- the emergency and the caller's identity, whose role the route requires, are parameters.
pub mod Limit
mod Examples
use Prim.Native.String.{◌++◌}
use mathlib.Core.List.{◌++◌ as ◌++ᴸ◌}
use sps_v.Common.{
  ℕ, suc, ◌+◌, ◌-◌, String, Bool, true, false, not, ◌&&◌, ◌||◌, Option, none, some, List, [], ◌∷◌,
  ◌==◌, string_eq, if◌then◌else◌, ltb, leb, is_some, find, Result, ok, err, Error,
}
use sps_v.Common.Time.{Datetime, aware, to_utc, hours}
use sps_v.Db.{Database, EmergencyRecord}

-- Python's `int`; `negsuc n` is `-(n + 1)`.
pub data ℤ : Type 0 where
  pos negsuc : ℕ → ℤ

pub record CreateEmergencyRequest : Type 0 where
  pub incident_id : String
  pub case_id : String
  pub scope : String
  pub allowed_bypasses : List String
  pub forbidden_bypasses : List String
  pub duration_hours : Option ℤ

-- Less `created_at`, which the server fills in.
pub record EmergencyResponse : Type 0 where
  pub emergency_id : String
  pub case_id : String
  pub incident_id : String
  pub scope : String
  pub declared_by : String
  pub started_at : Datetime
  pub expires_at : Datetime
  pub cleanup_due_at : Option Datetime

-- `_row_to_response`
abbrev pub row_to_response : EmergencyRecord → EmergencyResponse
row_to_response row = record {
  emergency_id = row.emergency_id;
  case_id = row.case_id;
  incident_id = row.incident_id;
  scope = row.scope;
  declared_by = row.declared_by;
  started_at = row.started_at;
  expires_at = row.expires_at;
  cleanup_due_at = row.cleanup_due_at;
}

-- The answers; an `OverflowError` of a time is caught by nothing.
pub data Reply : Type 0 where
  created : EmergencyResponse → Reply
  validation_failed internal_error : Reply
  invalid_duration : (requested_hours : ℤ) → Reply
  conflict : (emergency_id : String) → Reply

abbrev is_given : String → Bool
is_given s = not (s == "")

-- The fields' `min_length=1`.
pub is_valid_request : CreateEmergencyRequest → Bool
is_valid_request req = is_given req.incident_id && (is_given req.case_id && is_given req.scope)

-- `MAX_EMERGENCY_DURATION_HOURS`
abbrev pub max_emergency_duration_hours : ℕ
max_emergency_duration_hours = 24

pub duration_or_limit : Option ℤ → ℤ
duration_or_limit none = pos max_emergency_duration_hours
duration_or_limit (some d) = d

pub exceeds_limit : ℤ → Bool
exceeds_limit (pos n) = ltb max_emergency_duration_hours n
exceeds_limit (negsuc n) = false

-- `datetime.max`, in microseconds since `datetime.min`.
abbrev max_datetime : ℕ
max_datetime = 315537897599999999

-- `now + dt.timedelta(hours=d)`, or none where that leaves the range of `datetime`.
pub add_hours : ℕ → ℤ → Option ℕ
add_hours now (pos n) = if ltb max_datetime (now + hours n) then none else some (now + hours n)
add_hours now (negsuc n) = if ltb now (hours (suc n)) then none else some (now - hours (suc n))

-- `xs if xs else None`
abbrev or_none : List String → Option (List String)
or_none [] = none
or_none (x ∷ xs) = some (x ∷ xs)

pub new_row : String → String → ℕ → ℕ → ℕ → CreateEmergencyRequest → EmergencyRecord
new_row emergency_id subject started_at expires_at cleanup_due_at req = record {
  emergency_id = emergency_id;
  incident_id = req.incident_id;
  case_id = req.case_id;
  scope = req.scope;
  declared_by = subject;
  started_at = aware started_at;
  expires_at = aware expires_at;
  allowed_bypasses = or_none req.allowed_bypasses;
  forbidden_bypasses = or_none req.forbidden_bypasses;
  cleanup_due_at = some (aware cleanup_due_at);
}

abbrev pub get_emergency : String → Database → Option EmergencyRecord
get_emergency id db = find (λ e. e.emergency_id == id) db.emergency_records

-- The constraints of the commit: the primary key, and the foreign key on the case.
pub violates : String → CreateEmergencyRequest → Database → Bool
violates emergency_id req db =
    is_some (get_emergency emergency_id db)
    || not (is_some (find (λ c. c.case_id == req.case_id) db.permit_cases))

pub insert : EmergencyRecord → CreateEmergencyRequest → Database → Reply × Database
insert row req db =
    if violates row.emergency_id req db then (Reply.conflict row.emergency_id, db) else (
      Reply.created (row_to_response row),
      record db { emergency_records = db.emergency_records ++ᴸ row ∷ [] },
    )

-- The endpoint at the time `now`, for the caller `subject`.
pub create_emergency : String → String → ℕ → CreateEmergencyRequest → Database → Reply × Database
create_emergency ulid subject now req db =
    if not (is_valid_request req)
    then (Reply.validation_failed, db)
    else if exceeds_limit (duration_or_limit req.duration_hours)
    then (Reply.invalid_duration (duration_or_limit req.duration_hours), db)
    else elim (add_hours now (duration_or_limit req.duration_hours)) [
      | none ↦ (Reply.internal_error, db)
      | some expires_at ↦ elim (add_hours expires_at (pos 24)) [
        | none ↦ (Reply.internal_error, db)
        | some cleanup ↦
            insert (new_row ("EMERG-" ++ ulid) subject now expires_at cleanup req) req db
      ]
    ]

-- `validate_emergency_artifact` at the time `now`.
pub validate_emergency_artifact : ℕ → String → Database → Result String
validate_emergency_artifact now emergency_id db = elim (get_emergency emergency_id db) [
  | none ↦ err Error.lookup_error
  | some e ↦ if leb (to_utc e.expires_at) now then err Error.value_error else ok emergency_id
]
