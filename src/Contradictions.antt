-- ===== src/Contradictions.antt =====
-- The contradiction endpoints of src/sps/api/routes/contradictions.py.
pub mod Blocks
mod Examples
use mathlib.Core.List.{◌++◌ as ◌++ᴸ◌}
use sps_v.Common.{
  ℕ, String, Bool, true, not, ◌||◌, Option, none, some, List, [], ◌∷◌, ◌==◌, string_eq,
  if◌then◌else◌, is_some, find, update,
}
use sps_v.Db.{Database, ContradictionArtifact}

pub record CreateContradictionRequest : Type 0 where
  pub contradiction_id : String
  pub case_id : String
  pub scope : String
  pub source_a : String
  pub source_b : String
  pub ranking_relation : String
  pub blocking_effect : Bool

pub record ResolveContradictionRequest : Type 0 where
  pub resolved_by : String

-- Less `created_at`, which the server fills in.
pub record ContradictionResponse : Type 0 where
  pub contradiction_id : String
  pub case_id : String
  pub scope : String
  pub source_a : String
  pub source_b : String
  pub ranking_relation : String
  pub blocking_effect : Bool
  pub resolution_status : String
  pub resolved_at : Option ℕ
  pub resolved_by : Option String

-- The success, or an error with what its `detail` names.
pub data Reply : Type 0 where
  done : ContradictionResponse → Reply
  already_exists not_found : (contradiction_id : String) → Reply
  already_resolved : (contradiction_id resolution_status : String) → Reply

-- `_row_to_response`
abbrev pub row_to_response : ContradictionArtifact → ContradictionResponse
row_to_response row = record {
  contradiction_id = row.contradiction_id;
  case_id = row.case_id;
  scope = row.scope;
  source_a = row.source_a;
  source_b = row.source_b;
  ranking_relation = row.ranking_relation;
  blocking_effect = row.blocking_effect;
  resolution_status = row.resolution_status;
  resolved_at = row.resolved_at;
  resolved_by = row.resolved_by;
}

pub get_row : String → Database → Option ContradictionArtifact
get_row id db = find (λ c. c.contradiction_id == id) db.contradiction_artifacts

pub new_row : CreateContradictionRequest → ContradictionArtifact
new_row req = record {
  contradiction_id = req.contradiction_id;
  case_id = req.case_id;
  scope = req.scope;
  source_a = req.source_a;
  source_b = req.source_b;
  ranking_relation = req.ranking_relation;
  blocking_effect = req.blocking_effect;
  resolution_status = "OPEN";
  resolved_at = none;
  resolved_by = none;
}

-- The constraints of the commit: the primary key, and the foreign key on the case.
pub violates : CreateContradictionRequest → Database → Bool
violates req db =
    is_some (get_row req.contradiction_id db)
    || not (is_some (find (λ c. c.case_id == req.case_id) db.permit_cases))

pub create_contradiction : CreateContradictionRequest → Database → Reply × Database
create_contradiction req db =
    if violates req db then (Reply.already_exists req.contradiction_id, db) else (
      Reply.done (row_to_response (new_row req)),
      record db { contradiction_artifacts = db.contradiction_artifacts ++ᴸ new_row req ∷ [] },
    )

pub resolved : ℕ → ResolveContradictionRequest → ContradictionArtifact → ContradictionArtifact
resolved now req row = record row {
  resolution_status = "RESOLVED";
  resolved_at = some now;
  resolved_by = some req.resolved_by;
}

-- The endpoint at the time `now`.
pub resolve_contradiction : ℕ → String → ResolveContradictionRequest → Database → Reply × Database
resolve_contradiction now contradiction_id req db = elim (get_row contradiction_id db) [
  | none ↦ (Reply.not_found contradiction_id, db)
  | some row ↦
      if not (row.resolution_status == "OPEN")
      then (Reply.already_resolved contradiction_id row.resolution_status, db)
      else (
        Reply.done (row_to_response (resolved now req row)),
        record db {
          contradiction_artifacts =
              update (λ c. c.contradiction_id == contradiction_id) (resolved now req)
                db.contradiction_artifacts;
        },
      )
]

pub get_contradiction : String → Database → Reply
get_contradiction contradiction_id db = elim (get_row contradiction_id db) [
  | none ↦ Reply.not_found contradiction_id
  | some row ↦ Reply.done (row_to_response row)
]
