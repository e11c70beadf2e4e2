-- ===== src/Releases/Blockers.antt =====
-- What stands against a release: src/sps/services/release_blockers.py and
-- src/sps/db/queries/release_blockers.py, behind the guard of src/sps/api/routes/ops.py. The order of
-- the rows by `created_at`, a column of the server, is a parameter.
pub mod Open
mod Examples
use Prim.Native.Char.{code}
use sps_v.Auth.{
  Access, Credentials, Decoded, Refusal, Role, require_roles_for, require_service_principal,
}
use sps_v.Common.{
  ℕ, ◌+◌, String, ◌≡◌, ◌↔◌, ◌⊎◌, Bool, true, false, ◌&&◌, ◌||◌, List, [], ◌∷◌, map, ◌==◌, nat_eq,
  string_eq, filter, count, length, Exists, arith,
}
use sps_v.Db.{Database, ContradictionArtifact, DissentArtifact}

pub record ContradictionBlockerResponse : Type 0 where
  pub contradiction_id : String
  pub case_id : String
  pub scope : String
  pub resolution_status : String
  pub blocking_effect : Bool

pub record DissentBlockerResponse : Type 0 where
  pub dissent_id : String
  pub case_id : String
  pub linked_review_id : String
  pub scope : String
  pub resolution_state : String
  pub created_at : ℕ

pub record ReleaseBlockersResponse : Type 0 where
  pub generated_at : ℕ
  pub contradictions : List ContradictionBlockerResponse
  pub dissents : List DissentBlockerResponse
  pub blocker_count : ℕ

-- `s LIKE p`, for a pattern without `%`: an underscore stands for any character.
pub like : (pattern s : String) → Bool
like String.[] String.[] = true
like String.[] (String.◌∷◌ c s) = false
like (String.◌∷◌ p ps) String.[] = false
like (String.◌∷◌ p ps) (String.◌∷◌ c s) = (code p == b'_' || code p == code c) && like ps s

-- `s LIKE '%' || p`, which `scope.endswith(p)` becomes.
pub ends_like : (pattern s : String) → Bool
ends_like p String.[] = like p String.[]
ends_like p (String.◌∷◌ c s) = like p (String.◌∷◌ c s) || ends_like p s

-- The filter of `get_open_blocking_contradictions`.
abbrev pub is_blocking_contradiction : ContradictionArtifact → Bool
is_blocking_contradiction c = c.blocking_effect && c.resolution_status == "OPEN"

-- That of `get_open_blocking_dissents`, with the suffixes that are its default.
abbrev pub is_blocking_dissent : DissentArtifact → Bool
is_blocking_dissent d =
    d.resolution_state == "OPEN"
    && (ends_like "HIGH_RISK" d.scope || ends_like "AUTHORITY_BOUNDARY" d.scope)

abbrev pub contradiction_item : ContradictionArtifact → ContradictionBlockerResponse
contradiction_item c = record {
  contradiction_id = c.contradiction_id;
  case_id = c.case_id;
  scope = c.scope;
  resolution_status = c.resolution_status;
  blocking_effect = c.blocking_effect;
}

abbrev pub dissent_item : DissentArtifact → DissentBlockerResponse
dissent_item d = record {
  dissent_id = d.dissent_id;
  case_id = d.case_id;
  linked_review_id = d.linked_review_id;
  scope = d.scope;
  resolution_state = d.resolution_state;
  created_at = d.created_at;
}

-- The sorts of the two queries.
pub record Sorts : Type 0 where
  pub contradictions : List ContradictionArtifact → List ContradictionArtifact
  pub dissents : List DissentArtifact → List DissentArtifact

pub build_release_blockers_response : Sorts → ℕ → Database → ReleaseBlockersResponse
build_release_blockers_response sorts now db =
    let cs = sorts.contradictions (filter is_blocking_contradiction db.contradiction_artifacts) in
    let ds = sorts.dissents (filter is_blocking_dissent db.dissent_artifacts) in
    record {
      generated_at = now;
      contradictions = map contradiction_item cs;
      dissents = map dissent_item ds;
      blocker_count = length (map contradiction_item cs) + length (map dissent_item ds);
    }

pub data Reply : Type 0 where
  blockers : ReleaseBlockersResponse → Reply
  refused : Refusal → Reply

-- The route, behind the guard of its router.
unfoldable pub get_release_blockers :
    Sorts → (String → Decoded) → Credentials → ℕ → Database → Reply
get_release_blockers sorts decode c now db =
    elim (require_roles_for (require_service_principal decode c) (Role.ops ∷ [])) [
      | Access.refused r ↦ Reply.refused r
      | Access.granted identity ↦ Reply.blockers (build_release_blockers_response sorts now db)
    ]
