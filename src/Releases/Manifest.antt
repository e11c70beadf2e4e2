-- ===== src/Releases/Manifest.antt =====
-- The builder of a release's manifest: build_release_bundle_components of
-- src/sps/services/release_bundle_manifest.py. What is read from the files, by the libraries for JSON
-- and YAML, is a parameter, as are the settings.
pub mod Accepted
mod Examples
use Prim.Native.String.{◌++◌}
use sps_v.Common.{
  ℕ, String, Bool, true, false, not, ◌&&◌, ◌⊎◌, inl, inr, Option, none, some, List, [], ◌∷◌, map,
  ◌==◌, string_eq, if◌then◌else◌, find, filter, elem,
}
use sps_v.Common.Text.{sorted_set}
use sps_v.Releases.{ReleaseArtifactRequest, ReleaseBundleRequest}

pub record PackageManifestEntry : Type 0 where
  pub path : String
  pub sha256 : String

-- The files below the root: where a path leads, whether a file is there, and what
-- `extract_artifact_id` finds in it.
pub record Files : Type 0 where
  pub resolve : String → String
  pub is_file : String → Bool
  pub extract_artifact_id : String → Option String

-- The versions in the settings.
pub record Versions : Type 0 where
  pub spec_version : String
  pub app_version : String
  pub schema_version : String
  pub model_version : String
  pub policy_bundle_version : String
  pub invariant_pack_version : String
  pub adapter_versions : List (String × String)

-- `ReleaseBundleManifestError`
pub data ManifestError : Type 0 where
  path_missing artifact_id_missing duplicate_artifact_id : String → ManifestError
  fields_missing fields_unexpected : List String → ManifestError
  schema_required_invalid : ManifestError
  field_type : (field expected : String) → ManifestError

-- The kind of a JSON value that the schema names.
pub data Kind : Type 0 where
  string object array : Kind

-- The schema, as far as it is read: `required`, if it is a list, whether other properties are
-- forbidden, and the types of the properties.
pub record Schema : Type 0 where
  pub required : Option (List String)
  pub is_closed : Bool
  pub properties : List (String × Option String)

pub record Manifest : Type 0 where
  pub release_id : String
  pub versions : Versions
  pub adapter_versions : List (String × String)
  pub artifact_digests : List (String × String)
  pub created_at : String

pub record ReleaseBundleComponents : Type 0 where
  pub manifest : Manifest
  pub artifacts : List ReleaseArtifactRequest

-- `d[key] = v`
pub assign : String → String → List (String × String) → List (String × String)
assign key v [] = (key, v) ∷ []
assign key v ((k, w) ∷ d) =
    let rest = assign key v d in if k == key then (key, v) ∷ d else (k, w) ∷ rest

-- `{**d, **e}`
pub merge : List (String × String) → List (String × String) → List (String × String)
merge d [] = d
merge d ((k, v) ∷ e) = merge (assign k v d) e

abbrev given : Option String → Option String
given none = none
given (some id) = if id == "" then none else some id

abbrev and_then : {A B : Type 0} → ManifestError ⊎ A → (A → ManifestError ⊎ B) → ManifestError ⊎ B
and_then (inl e) f = inl e
and_then (inr a) f = f a

-- The loop over the entries, with the identifiers that it has seen. An artifact is listed with its
-- digest, which is also its checksum.
pub collect :
    Files → List String → List PackageManifestEntry → ManifestError ⊎ List ReleaseArtifactRequest
collect files seen [] = inr []
collect files seen (e ∷ es) =
    if not (files.is_file (files.resolve e.path))
    then inl (ManifestError.path_missing e.path)
    else elim (given (files.extract_artifact_id (files.resolve e.path))) [
      | none ↦ inl (ManifestError.artifact_id_missing e.path)
      | some id ↦
          let rest = collect files (id ∷ seen) es in
          if elem id seen
          then inl (ManifestError.duplicate_artifact_id id)
          else and_then rest (λ artifacts. inr (
              record {
                artifact_id = id;
                checksum = e.sha256;
                storage_uri = "file://" ++ files.resolve e.path;
              }
              ∷ artifacts))
    ]

abbrev pub digest_of : ReleaseArtifactRequest → String × String
digest_of a = (a.artifact_id, a.checksum)

-- The fields of the manifest and their kinds.
abbrev manifest_fields : List (String × Kind)
manifest_fields =
    ("release_id", Kind.string)
    ∷ ("spec_version", Kind.string)
    ∷ ("app_version", Kind.string)
    ∷ ("schema_version", Kind.string)
    ∷ ("model_version", Kind.string)
    ∷ ("policy_bundle_version", Kind.string)
    ∷ ("adapter_versions", Kind.object)
    ∷ ("invariant_pack_version", Kind.string)
    ∷ ("artifact_digests", Kind.object)
    ∷ ("approvals", Kind.array)
    ∷ ("created_at", Kind.string)
    ∷ []

abbrev field_names : List String
field_names = map (λ f. f.0) manifest_fields

-- `type_checks`; a type that it does not list is not tested.
abbrev is_of_type : String → Kind → Bool
is_of_type type Kind.string = not (type == "object") && not (type == "array")
is_of_type type Kind.object = not (type == "string") && not (type == "array")
is_of_type type Kind.array = not (type == "string") && not (type == "object")

abbrev expects : Option String → Kind → Bool
expects none kind = true
expects (some type) kind = is_of_type type kind

abbrev type_text : Option String → String
type_text none = ""
type_text (some t) = t

check_types : List (String × Option String) → Option ManifestError
check_types [] = none
check_types ((key, type) ∷ rest) =
    let later = check_types rest in
    elim (find (λ f. f.0 == key) manifest_fields) [
      | none ↦ later
      | some (k, kind) ↦
          if expects type kind then later else some (ManifestError.field_type key (type_text type))
    ]

abbrev fail_if : List String → ManifestError → Option ManifestError → Option ManifestError
fail_if [] e later = later
fail_if (x ∷ xs) e later = some e

-- `_validate_against_schema`, of the manifest.
pub validate_against_schema : Schema → Option ManifestError
unfolding check_types
validate_against_schema schema = elim schema.required [
  | none ↦ some ManifestError.schema_required_invalid
  | some required ↦
      let missing = filter (λ f. not (elem f field_names)) required in
      let extra =
        if schema.is_closed
        then filter (λ f. not (elem f (map (λ p. p.0) schema.properties))) field_names
        else [] in
      fail_if missing (ManifestError.fields_missing (sorted_set missing)) (
        fail_if extra (ManifestError.fields_unexpected (sorted_set extra))
          (check_types schema.properties))
]

-- `build_release_bundle_components`; `runtime` and `overrides` are adapter versions, and `created_at`
-- is the time in ISO format.
pub build_release_bundle_components :
    (files : Files) (settings : Versions) (schema : Schema)
    (runtime overrides : List (String × String)) (release_id created_at : String)
    (entries : List PackageManifestEntry)
    → ManifestError ⊎ ReleaseBundleComponents
build_release_bundle_components files settings schema runtime overrides release_id created_at
      entries =
    and_then (collect files [] entries) (λ artifacts. elim (validate_against_schema schema) [
      | some e ↦ inl e
      | none ↦ inr (record {
        manifest = record {
          release_id = release_id;
          versions = settings;
          adapter_versions = merge (merge runtime settings.adapter_versions) overrides;
          artifact_digests = map digest_of artifacts;
          created_at = created_at;
        };
        artifacts = artifacts;
      })
    ])

-- The payload that scripts/generate_release_bundle.py makes of the components.
pub payload_of : ReleaseBundleComponents → ReleaseBundleRequest
payload_of c = record {
  release_id = c.manifest.release_id;
  spec_version = c.manifest.versions.spec_version;
  app_version = c.manifest.versions.app_version;
  schema_version = c.manifest.versions.schema_version;
  model_version = c.manifest.versions.model_version;
  policy_bundle_version = c.manifest.versions.policy_bundle_version;
  invariant_pack_version = c.manifest.versions.invariant_pack_version;
  adapter_versions = c.manifest.adapter_versions;
  artifact_digests = c.manifest.artifact_digests;
  artifacts = c.artifacts;
}
