-- ===== src/Releases/Callers.antt =====
-- Who can store which bundles, through the route.
use sps_v.Auth.{Credentials, Decoded, Identity, Role}
use sps_v.Auth.Grants.{HasRole, IsService}
use sps_v.Common.{String, ◌≡◌, ◌⊎◌, true, false, none, ◌==◌, string_eq, is_some, find, elem, Unique}
use sps_v.Db.{Database}
use sps_v.Releases.References.{SameTexts}
use sps_v.Releases.{ReleaseBundleRequest, artifact_ids, digest_ids, is_valid_request}

-- The caller is a service with the role of a releaser or an admin.
pub record IsReleaser (decode : String → Decoded) (c : Credentials) (i : Identity) : Type 0 where
  pub service : IsService decode c i
  pub role : HasRole i Role.admin ⊎ HasRole i Role.release

-- The request is filled in, lists its artifacts once and with a digest each, and neither its release
-- nor any of its artifacts is stored.
pub record IsStorable (req : ReleaseBundleRequest) (db : Database) : Type 0 where
  pub filled_in : is_valid_request req ≡ true
  pub once : Unique (λ s. s) (artifact_ids req)
  pub digests : SameTexts (artifact_ids req) (digest_ids req)
  pub new_release : find (λ b. b.release_id == req.release_id) db.release_bundles ≡ none
  pub new_artifacts :
      (s : String)
      → elem s (artifact_ids req) ≡ true
      → is_some (find (λ a. a.artifact_id == s) db.release_artifacts) ≡ false
