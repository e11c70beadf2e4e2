-- ===== src/Overrides.antt =====
-- `create_override` of src/sps/api/routes/overrides.py, with its contract in
-- src/sps/api/contracts/overrides.py. The ULID of the override and the caller's identity, whose
-- role the route requires, are parameters.
pub mod Covers
mod Examples
use Prim.Native.String.{◌++◌}
use mathlib.Core.List.{◌++◌ as ◌++ᴸ◌}
use sps_v.Common.{
  ℕ, ◌+◌, String, Bool, true, false, not, ◌&&◌, ◌||◌, Option, none, some, List, [], ◌∷◌, ◌==◌,
  string_eq, if◌then◌else◌, ltb, is_some, find,
}
use sps_v.Common.Time.{Datetime, aware, hours}
use sps_v.Db.{Database, OverrideArtifact}

-- `duration_hours` is an `int` that is tested to be positive; no natural number is negative.
pub record CreateOverrideRequest : Type 0 where
  pub case_id : String
  pub scope : String
  pub justification : String
  pub duration_hours : ℕ
  pub affected_surfaces : List String

-- Less `created_at`, which the server fills in.
pub record OverrideResponse : Type 0 where
  pub override_id : String
  pub case_id : String
  pub scope : String
  pub approver_id : String
  pub start_at : Datetime
  pub expires_at : Datetime
  pub affected_surfaces : List String

-- `_row_to_response`
abbrev pub row_to_response : OverrideArtifact → OverrideResponse
row_to_response row = record {
  override_id = row.override_id;
  case_id = row.case_id;
  scope = row.scope;
  approver_id = row.approver_id;
  start_at = row.start_at;
  expires_at = row.expires_at;
  affected_surfaces = row.affected_surfaces;
}

-- The answers; a time beyond `datetime.max` is an `OverflowError`, which nothing catches.
pub data Reply : Type 0 where
  created : OverrideResponse → Reply
  validation_failed internal_error : Reply
  conflict : (override_id : String) → Reply

abbrev is_given : String → Bool
is_given s = not (s == "")

abbrev has_any : List String → Bool
has_any [] = false
has_any (x ∷ xs) = true

-- The fields' `min_length=1` and `gt=0`.
pub is_valid_request : CreateOverrideRequest → Bool
is_valid_request req =
    is_given req.case_id
    && (is_given req.scope
        && (is_given req.justification
            && (ltb 0 req.duration_hours && has_any req.affected_surfaces)))

-- `datetime.max`, in microseconds since `datetime.min`.
abbrev max_datetime : ℕ
max_datetime = 315537897599999999

abbrev pub expiry : ℕ → CreateOverrideRequest → ℕ
expiry now req = now + hours req.duration_hours

pub new_row : String → String → ℕ → CreateOverrideRequest → OverrideArtifact
new_row override_id subject now req = record {
  override_id = override_id;
  case_id = req.case_id;
  scope = req.scope;
  justification = req.justification;
  start_at = aware now;
  expires_at = aware (expiry now req);
  affected_surfaces = req.affected_surfaces;
  approver_id = subject;
  cleanup_required = true;
}

-- The constraints of the commit: the primary key, and the foreign key on the case.
pub violates : String → CreateOverrideRequest → Database → Bool
violates override_id req db =
    is_some (find (λ o. o.override_id == override_id) db.override_artifacts)
    || not (is_some (find (λ c. c.case_id == req.case_id) db.permit_cases))

abbrev pub override_id_of : String → String
override_id_of ulid = "OVR-" ++ ulid

-- The endpoint at the time `now`, for the caller `subject`.
pub create_override : String → String → ℕ → CreateOverrideRequest → Database → Reply × Database
create_override ulid subject now req db =
    if not (is_valid_request req)
    then (Reply.validation_failed, db)
    else if ltb max_datetime (expiry now req)
    then (Reply.internal_error, db)
    else if violates (override_id_of ulid) req db
    then (Reply.conflict (override_id_of ulid), db)
    else (
      Reply.created (row_to_response (new_row (override_id_of ulid) subject now req)),
      record db {
        override_artifacts =
            db.override_artifacts ++ᴸ new_row (override_id_of ulid) subject now req ∷ [];
      },
    )
