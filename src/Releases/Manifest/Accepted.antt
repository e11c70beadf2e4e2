-- ===== src/Releases/Manifest/Accepted.antt =====
-- What the builder builds, the endpoint accepts.
use Prim.Native.String.{◌++◌}
use sps_v.Common.{
  String, ◌≡◌, ◌⊎◌, refl, sym, ◌∙◌, ap, subst, inl, inr, true, false, none, Bool-cases,
  Option-cases, List, [], ◌∷◌, map, ◌==◌, string_eq, eq_iff, str_refl, elem, Unique, arith,
}
use sps_v.Releases.{ReleaseArtifactRequest, validate_artifact_references}
use sps_v.Releases.References.{validate_artifact_references_iff, found_iff}
use sps_v.Releases.Manifest.{
  PackageManifestEntry, Files, Versions, Schema, ReleaseBundleComponents, collect, given, digest_of,
  validate_against_schema, build_release_bundle_components, payload_of,
}

abbrev ids : List ReleaseArtifactRequest → List String
ids xs = map (λ a. a.artifact_id) xs

abbrev IsFresh : List String → List ReleaseArtifactRequest → Type 0
IsFresh seen out =
    Unique (λ s. s) (ids out) × ((s : String) → elem s (ids out) ≡ true → elem s seen ≡ false)

Sum-cases : {A B : Type 0} (r : A ⊎ B) → ((a : A) × (r ≡ inl a)) ⊎ ((b : B) × (r ≡ inr b))
Sum-cases (inl a) = inl (a, refl)
Sum-cases (inr b) = inr (b, refl)

IsFresh-cons :
    (seen : List String) (a : ReleaseArtifactRequest) (rest : List ReleaseArtifactRequest)
    → elem a.artifact_id seen ≡ false
    → IsFresh (a.artifact_id ∷ seen) rest
    → IsFresh seen (a ∷ rest)
unfolding elem
IsFresh-cons seen a rest new (unique, fresh) = (
  (
    elim (Bool-cases (elem a.artifact_id (ids rest))) [
      | inl again ↦ let f = fresh a.artifact_id again in ground (arith, str_refl a.artifact_id)
      | inr once ↦ found_iff a.artifact_id (ids rest) ∙ once
    ],
    unique,
  ),
  λ s h. elim (Bool-cases (a.artifact_id == s)) [
    | inl same ↦ ground (arith, eq_iff a.artifact_id s)
    | inr other ↦ let f = fresh s (ground arith) in ground arith
  ],
)

-- The collected artifacts are distinct, and new.
collect-IsFresh :
    (files : Files) (seen : List String) (es : List PackageManifestEntry)
    (out : List ReleaseArtifactRequest)
    → collect files seen es ≡ inr out
    → IsFresh seen out
unfolding collect elem
collect-IsFresh files seen [] out e =
    let q : [] ≡ out = ground arith in subst (IsFresh seen) q (tt, λ s h. cc)
collect-IsFresh files seen (x ∷ es) out e =
    elim (Bool-cases (files.is_file (files.resolve x.path))) [
      | inr missing ↦ absurd (ground arith)
      | inl there ↦ elim (Option-cases (given (files.extract_artifact_id (files.resolve x.path)))) [
        | inl unnamed ↦ absurd (ground arith)
        | inr (id, named) ↦ elim (Bool-cases (elem id seen)) [
          | inl again ↦ absurd (ground arith)
          | inr new ↦ elim (Sum-cases (collect files (id ∷ seen) es)) [
            | inl (x', failed) ↦ absurd (ground arith)
            | inr (rest, done) ↦
                let a : ReleaseArtifactRequest = record {
                  artifact_id = id;
                  checksum = x.sha256;
                  storage_uri = "file://" ++ files.resolve x.path;
                } in
                let q : a ∷ rest ≡ out = ground arith in
                subst (IsFresh seen) q
                  (IsFresh-cons seen a rest new (collect-IsFresh files (id ∷ seen) es rest done))
          ]
        ]
      ]
    ]

map_digests :
    (xs : List ReleaseArtifactRequest)
    → map (λ (d : String × String). d.0) (map digest_of xs) ≡ ids xs
map_digests [] = refl
map_digests (x ∷ xs) = ap (λ r. x.artifact_id ∷ r) (map_digests xs)

-- The payload that is made of what the builder returns passes the endpoint's test of references.
pub build-validate_artifact_references :
    (files : Files) (settings : Versions) (schema : Schema)
    (runtime overrides : List (String × String)) (release_id created_at : String)
    (entries : List PackageManifestEntry) (c : ReleaseBundleComponents)
    → build_release_bundle_components files settings schema runtime overrides release_id created_at
        entries
      ≡ inr c
    → validate_artifact_references (payload_of c) ≡ none
unfolding build_release_bundle_components payload_of
build-validate_artifact_references files settings schema runtime overrides release_id created_at
      entries c e =
    elim (Sum-cases (collect files [] entries)) [
      | inl (x, failed) ↦ absurd (ground arith)
      | inr (out, done) ↦ elim (Option-cases (validate_against_schema schema)) [
        | inr (x, failed) ↦ absurd (ground arith)
        | inl conforms ↦
            let artifacts : out ≡ c.artifacts = ground arith in
            let digests : map digest_of out ≡ c.manifest.artifact_digests = ground arith in
            (validate_artifact_references_iff (payload_of c)).1 (
              subst (λ xs. Unique (λ s. s) (ids xs)) artifacts
                  (collect-IsFresh files [] entries out done).0,
              λ s. ap (elem s) (
                  ap ids (sym artifacts)
                  ∙ (sym (map_digests out) ∙ ap (map (λ (d : String × String). d.0)) digests)),
            )
      ]
    ]
