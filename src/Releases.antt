-- ===== src/Releases.antt =====
-- The release bundles of src/sps/api/routes/releases.py, behind the guard of its router. The rehearsal
-- of a rollback, which is I/O on the object store, is left out.
pub mod Blockers
pub mod References
pub mod Manifest
pub mod Store
pub mod Script
pub mod Callers
mod Examples
use mathlib.Core.List.{◌++◌ as ◌++ᴸ◌}
use sps_v.Auth.{
  Access, Credentials, Decoded, Refusal, Role, require_roles_for, require_service_principal,
}
use sps_v.Common.{
  ℕ, String, Bool, true, false, not, ◌&&◌, ◌||◌, Option, none, some, List, [], ◌∷◌, map, ◌==◌,
  string_eq, if◌then◌else◌, ltb, is_some, find, filter, count, length, elem,
}
use sps_v.Common.Text.{sorted_set}
use sps_v.Db.{Database, ReleaseBundle, ReleaseArtifact}

pub record ReleaseArtifactRequest : Type 0 where
  pub artifact_id : String
  pub checksum : String
  pub storage_uri : String

-- Less `approvals`, which is stored as it comes and not read. A dictionary lists its items.
pub record ReleaseBundleRequest : Type 0 where
  pub release_id : String
  pub spec_version : String
  pub app_version : String
  pub schema_version : String
  pub model_version : String
  pub policy_bundle_version : String
  pub invariant_pack_version : String
  pub adapter_versions : List (String × String)
  pub artifact_digests : List (String × String)
  pub artifacts : List ReleaseArtifactRequest

pub record ReleaseBundleResponse : Type 0 where
  pub release_id : String
  pub created_at : ℕ
  pub artifact_count : ℕ
  pub artifact_ids : List String

-- The two answers of `_validate_artifact_references`.
pub data InvalidReferences : Type 0 where
  duplicate_artifact_ids : (artifact_ids : List String) → InvalidReferences
  artifact_digest_mismatch : (missing_digests unknown_digests : List String) → InvalidReferences

pub data Reply : Type 0 where
  created : ReleaseBundleResponse → Reply
  validation_failed : Reply
  invalid : InvalidReferences → Reply
  already_exists : (release_id : String) → Reply
  refused : Refusal → Reply

abbrev is_given : String → Bool
is_given s = not (s == "")

abbrev is_valid_artifact : ReleaseArtifactRequest → Bool
is_valid_artifact a = is_given a.artifact_id && (is_given a.checksum && is_given a.storage_uri)

-- The fields' `min_length=1`.
pub is_valid_request : ReleaseBundleRequest → Bool
is_valid_request req =
    is_given req.release_id
    && (is_given req.spec_version
        && (is_given req.app_version
            && (is_given req.schema_version
                && (is_given req.model_version
                    && (is_given req.policy_bundle_version
                        && (is_given req.invariant_pack_version
                            && not (
                                is_some (find (λ a. not (is_valid_artifact a)) req.artifacts))))))))

abbrev pub artifact_ids : ReleaseBundleRequest → List String
artifact_ids req = map (λ a. a.artifact_id) req.artifacts

abbrev pub digest_ids : ReleaseBundleRequest → List String
digest_ids req = map (λ d. d.0) req.artifact_digests

-- The texts of a list that are in it more than once.
pub repeated : List String → List String
repeated ids = sorted_set (filter (λ i. ltb 1 (count (λ j. j == i) ids)) ids)

-- `sorted(set(xs) - set(ys))`
pub difference : List String → List String → List String
difference xs ys = sorted_set (filter (λ x. not (elem x ys)) xs)

abbrev mismatch : List String → List String → Option InvalidReferences
mismatch [] [] = none
mismatch missing unknown = some (InvalidReferences.artifact_digest_mismatch missing unknown)

abbrev duplicates_first : List String → Option InvalidReferences → Option InvalidReferences
duplicates_first [] other = other
duplicates_first (x ∷ xs) other = some (InvalidReferences.duplicate_artifact_ids (x ∷ xs))

-- `_validate_artifact_references`; `none` where it does not raise.
pub validate_artifact_references : ReleaseBundleRequest → Option InvalidReferences
validate_artifact_references req = duplicates_first (repeated (artifact_ids req)) (
    mismatch (difference (artifact_ids req) (digest_ids req))
      (difference (digest_ids req) (artifact_ids req)))

pub bundle_row : ReleaseBundleRequest → ℕ → ReleaseBundle
bundle_row req now = record {
  release_id = req.release_id;
  spec_version = req.spec_version;
  app_version = req.app_version;
  schema_version = req.schema_version;
  model_version = req.model_version;
  policy_bundle_version = req.policy_bundle_version;
  invariant_pack_version = req.invariant_pack_version;
  adapter_versions = req.adapter_versions;
  artifact_digests = req.artifact_digests;
  created_at = now;
}

pub artifact_row : ReleaseBundleRequest → ℕ → ReleaseArtifactRequest → ReleaseArtifact
artifact_row req now a = record {
  artifact_id = a.artifact_id;
  release_id = req.release_id;
  checksum = a.checksum;
  storage_uri = a.storage_uri;
  created_at = now;
}

pub has_artifact : Database → String → Bool
has_artifact db id = is_some (find (λ a. a.artifact_id == id) db.release_artifacts)

-- The primary keys: that of the bundle at the flush, those of the artifacts, which no two releases can
-- share, at the commit.
pub violates : ReleaseBundleRequest → Database → Bool
violates req db =
    is_some (find (λ b. b.release_id == req.release_id) db.release_bundles)
    || is_some (find (has_artifact db) (artifact_ids req))

pub response_of : ReleaseBundleRequest → ℕ → ReleaseBundleResponse
response_of req now = record {
  release_id = req.release_id;
  created_at = now;
  artifact_count = length req.artifacts;
  artifact_ids = artifact_ids req;
}

pub store : ReleaseBundleRequest → ℕ → Database → Database
store req now db = record db {
  release_bundles = db.release_bundles ++ᴸ bundle_row req now ∷ [];
  release_artifacts = db.release_artifacts ++ᴸ map (artifact_row req now) req.artifacts;
}

-- The endpoint at the time `now`, for a caller that has passed the guard.
pub create_release_bundle : ReleaseBundleRequest → ℕ → Database → Reply × Database
create_release_bundle req now db =
    if not (is_valid_request req)
    then (Reply.validation_failed, db)
    else elim (validate_artifact_references req) [
      | some e ↦ (Reply.invalid e, db)
      | none ↦
          if violates req db
          then (Reply.already_exists req.release_id, db)
          else (Reply.created (response_of req now), store req now db)
    ]

-- The dependency of the router.
abbrev pub release_guard : (String → Decoded) → Credentials → Access
release_guard decode c = require_roles_for (require_service_principal decode c) (Role.release ∷ [])

-- The route: the guard, and the endpoint.
pub post_bundle :
    (String → Decoded) → Credentials → ReleaseBundleRequest → ℕ → Database → Reply × Database
post_bundle decode c req now db = elim (release_guard decode c) [
  | Access.refused r ↦ (Reply.refused r, db)
  | Access.granted identity ↦ create_release_bundle req now db
]
