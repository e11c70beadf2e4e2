-- ===== src/Releases/Manifest/Examples.antt =====
-- The components of a release with one file.
use sps_v.Common.{
  ◌≡◌, refl, inr, true, false, none, some, List, [], ◌∷◌, string_eq, find, elem, filter,
}
use sps_v.Releases.{ReleaseArtifactRequest, validate_artifact_references}
use sps_v.Releases.Manifest.{
  PackageManifestEntry, Files, Versions, Schema, ReleaseBundleComponents, collect,
  validate_against_schema, check_types, build_release_bundle_components, payload_of, merge, assign,
}
use sps_v.Releases.Manifest.Accepted.{build-validate_artifact_references}

abbrev settings : Versions
settings = record {
  spec_version = "1";
  app_version = "2";
  schema_version = "3";
  model_version = "4";
  policy_bundle_version = "5";
  invariant_pack_version = "6";
  adapter_versions = ("portal", "7") ∷ [];
}

abbrev files : Files
files = record {
  resolve = λ path. path;
  is_file = λ path. true;
  extract_artifact_id = λ path. some path;
}

abbrev schema : Schema
schema = record {
  required = some ("release_id" ∷ []);
  is_closed = false;
  properties = ("approvals", some "array") ∷ ("created_at", some "string") ∷ [];
}

abbrev entries : List PackageManifestEntry
entries = record { path = "policy.yaml"; sha256 = "ab" } ∷ []

abbrev artifact : ReleaseArtifactRequest
artifact = record {
  artifact_id = "policy.yaml";
  checksum = "ab";
  storage_uri = "file://policy.yaml";
}

abbrev components : ReleaseBundleComponents
components = record {
  manifest = record {
    release_id = "release-1";
    versions = settings;
    adapter_versions = ("portal", "8") ∷ [];
    artifact_digests = ("policy.yaml", "ab") ∷ [];
    created_at = "2026-01-01";
  };
  artifacts = artifact ∷ [];
}

builds :
    build_release_bundle_components files settings schema []
      (("portal", "8") ∷ [])
      "release-1"
      "2026-01-01"
      entries
    ≡ inr components
unfolding build_release_bundle_components collect validate_against_schema check_types merge assign
    elem filter find
builds = refl

build-validate_artifact_references_example :
    validate_artifact_references (payload_of components) ≡ none
build-validate_artifact_references_example =
    build-validate_artifact_references files settings schema [] (("portal", "8") ∷ []) "release-1"
      "2026-01-01" entries components builds
