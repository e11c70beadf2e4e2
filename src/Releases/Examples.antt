-- ===== src/Releases/Examples.antt =====
-- A sample release, built, asked for and stored.
use sps_v.Auth.Samples.{sample_decode, service}
use sps_v.Common.{[], ◌∷◌, string_eq}
use sps_v.Db.{Database}
use sps_v.Db.Samples.{empty}
use sps_v.Releases.{
  ReleaseArtifactRequest, ReleaseBundleRequest, create_release_bundle, post_bundle,
}
use sps_v.Releases.Store.{IsSound, create_release_bundle-IsSound}

abbrev artifact : ReleaseArtifactRequest
artifact = record {
  artifact_id = "policy.yaml";
  checksum = "ab";
  storage_uri = "file://policy.yaml";
}

abbrev request : ReleaseBundleRequest
request = record {
  release_id = "release-1";
  spec_version = "1";
  app_version = "2";
  schema_version = "3";
  model_version = "4";
  policy_bundle_version = "5";
  invariant_pack_version = "6";
  adapter_versions = [];
  artifact_digests = ("policy.yaml", "ab") ∷ [];
  artifacts = artifact ∷ [];
}

abbrev stored : Database
stored = (post_bundle sample_decode service request 5 empty).1

empty-IsSound : IsSound empty
empty-IsSound = record { releases = tt; artifacts = tt; digests = tt }

create_release_bundle-IsSound_example : IsSound (create_release_bundle request 5 empty).1
create_release_bundle-IsSound_example = create_release_bundle-IsSound request 5 empty empty-IsSound
