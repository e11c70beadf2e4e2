-- ===== src/Dissents.antt =====
-- `get_dissent_artifact` of src/sps/api/routes/dissents.py, behind the guard of its router.
pub mod Reads
mod Examples
use sps_v.Auth.{Access, Credentials, Decoded, Refusal, require_reviewer_identity}
use sps_v.Common.{ℕ, String, Option, none, some, ◌==◌, string_eq, find}
use sps_v.Db.{Database, DissentArtifact}

pub record DissentArtifactResponse : Type 0 where
  pub dissent_id : String
  pub linked_review_id : String
  pub case_id : String
  pub scope : String
  pub rationale : String
  pub required_followup : Option String
  pub resolution_state : String
  pub created_at : ℕ

pub data Reply : Type 0 where
  found : DissentArtifactResponse → Reply
  not_found : (dissent_id : String) → Reply
  refused : Refusal → Reply

-- `_row_to_response`
abbrev pub row_to_response : DissentArtifact → DissentArtifactResponse
row_to_response row = record {
  dissent_id = row.dissent_id;
  linked_review_id = row.linked_review_id;
  case_id = row.case_id;
  scope = row.scope;
  rationale = row.rationale;
  required_followup = row.required_followup;
  resolution_state = row.resolution_state;
  created_at = row.created_at;
}

abbrev reply_of : String → Option DissentArtifact → Reply
reply_of dissent_id none = Reply.not_found dissent_id
reply_of dissent_id (some row) = Reply.found (row_to_response row)

-- The route: the guard, with the key of the settings, and the endpoint.
pub get_dissent_artifact : (String → Decoded) → String → Credentials → String → Database → Reply
get_dissent_artifact decode key c dissent_id db = elim (require_reviewer_identity decode key c) [
  | Access.refused r ↦ Reply.refused r
  | Access.granted identity ↦
      reply_of dissent_id (find (λ d. d.dissent_id == dissent_id) db.dissent_artifacts)
]
