-- ===== src/Releases/Store.antt =====
-- What the endpoint keeps of the stored bundles.
use sps_v.Common.{
  ℕ, String, ◌≡◌, ◌↔◌, refl, sym, ◌∙◌, ap, inl, inr, Bool, true, false, ◌||◌, none, some,
  Bool-cases, Option-cases, List, [], ◌∷◌, ◌++◌, map, ◌==◌, string_eq, eq_iff, is_some, find, elem,
  All, All-map, Unique, Unique-append, find-append_old, find-append_new, str_refl, arith,
}
use sps_v.Db.{Database, ReleaseBundle, ReleaseArtifact}
use sps_v.Releases.References.{SameTexts, validate_artifact_references_iff, found_iff}
use sps_v.Releases.{
  ReleaseBundleRequest, ReleaseArtifactRequest, ReleaseBundleResponse, Reply, artifact_ids,
  digest_ids, is_valid_request, validate_artifact_references, bundle_row, artifact_row,
  has_artifact, violates, response_of, store, create_release_bundle,
}

-- The bundle of the artifact's release is there, and has a digest for the artifact.
abbrev pub HasDigest : List ReleaseBundle → ReleaseArtifact → Type 0
HasDigest bundles a =
    (b : ReleaseBundle) × (find (λ r. r.release_id == a.release_id) bundles ≡ some b)
    × (elem a.artifact_id (map (λ (d : String × String). d.0) b.artifact_digests) ≡ true)

-- The identifiers are distinct, and every artifact has a digest in the bundle of its release.
pub record IsSound (db : Database) : Type 0 where
  pub releases : Unique (λ b. b.release_id) db.release_bundles
  pub artifacts : Unique (λ a. a.artifact_id) db.release_artifacts
  pub digests : All (HasDigest db.release_bundles) db.release_artifacts

All-concat : {A : Type 0} (P : A → Type 0) (xs ys : List A) → All P xs → All P ys → All P (xs ++ ys)
All-concat P [] ys h k = k
All-concat P (x ∷ xs) ys (p, h) k = (p, All-concat P xs ys h k)

find-append :
    {A : Type 0} (p : A → Bool) (xs ys : List A)
    → is_some (find p (xs ++ ys)) ≡ (is_some (find p xs) || is_some (find p ys))
unfolding find
find-append p [] ys = refl
find-append p (x ∷ xs) ys = ground (arith, find-append p xs ys)

none_selected :
    (p : String → Bool) (xs : List String) (s : String)
    → is_some (find p xs) ≡ false
    → elem s xs ≡ true
    → p s ≡ false
unfolding find elem
none_selected p [] s h e = cc
none_selected p (x ∷ xs) s h e = ground (arith, eq_iff x s, none_selected p xs s)

select_none :
    (p : String → Bool) (xs : List String)
    → ((s : String) → elem s xs ≡ true → p s ≡ false)
    → is_some (find p xs) ≡ false
unfolding find elem
select_none p [] h = refl
select_none p (x ∷ xs) h =
    ground (arith, h x, str_refl x, select_none p xs (λ s e. h s (ground arith)))

module _ (req : ReleaseBundleRequest) (now : ℕ) where
  abbrev key : ReleaseArtifact → String
  key a = a.artifact_id

  abbrev ids : List ReleaseArtifactRequest → List String
  ids rs = map (λ r. r.artifact_id) rs

  abbrev rows : List ReleaseArtifactRequest → List ReleaseArtifact
  rows rs = map (artifact_row req now) rs

  find-rows :
      (s : String) (rs : List ReleaseArtifactRequest)
      → is_some (find (λ a. key a == s) (rows rs)) ≡ elem s (ids rs)
  unfolding find elem artifact_row
  find-rows s [] = refl
  find-rows s (r ∷ rs) = ground (arith, find-rows s rs)

  Unique-rows : (rs : List ReleaseArtifactRequest) → Unique (λ s. s) (ids rs) → Unique key (rows rs)
  unfolding artifact_row
  Unique-rows [] h = tt
  Unique-rows (r ∷ rs) (new, h) = (
    find-rows r.artifact_id rs ∙ (sym (found_iff r.artifact_id (ids rs)) ∙ new),
    Unique-rows rs h,
  )

  Unique-append_rows :
      (xs : List ReleaseArtifact) (rs : List ReleaseArtifactRequest)
      → Unique key xs
      → Unique (λ s. s) (ids rs)
      → ((s : String) → elem s (ids rs) ≡ true → is_some (find (λ a. key a == s) xs) ≡ false)
      → Unique key (xs ++ rows rs)
  unfolding find
  Unique-append_rows [] rs h u new = Unique-rows rs u
  Unique-append_rows (x ∷ xs) rs (fresh, h) u new = (
    find-append (λ a. key a == key x) xs (rows rs) ∙ (elim (Bool-cases (elem (key x) (ids rs))) [
      | inl clash ↦ let f = new (key x) clash in ground (arith, str_refl (key x))
      | inr free ↦ let f = find-rows (key x) rs in ground arith
    ]),
    Unique-append_rows xs rs h u (λ s e. let f = new s e in ground arith),
  )

  module _ (db : Database) (free : violates req db ≡ false) where
    new_bundle : find (λ b. b.release_id == req.release_id) db.release_bundles ≡ none
    unfolding violates
    new_bundle =
        elim (Option-cases (find (λ b. b.release_id == req.release_id) db.release_bundles)) [
          | inl new ↦ new
          | inr (b, old) ↦ absurd (ground arith)
        ]

    no_artifact :
        (s : String)
        → elem s (artifact_ids req) ≡ true
        → is_some (find (λ a. key a == s) db.release_artifacts) ≡ false
    unfolding violates has_artifact
    no_artifact s e = none_selected (has_artifact db) (artifact_ids req) s (ground arith) e

  not_violated :
      (db : Database)
      → find (λ b. b.release_id == req.release_id) db.release_bundles ≡ none
      → ((s : String)
          → elem s (artifact_ids req) ≡ true
          → is_some (find (λ a. key a == s) db.release_artifacts) ≡ false)
      → violates req db ≡ false
  unfolding violates has_artifact
  not_violated db new none_old =
      let a = select_none (has_artifact db) (artifact_ids req) none_old in ground arith

  module _ (db : Database) (sound : IsSound db) (free : violates req db ≡ false)
      (accepted : validate_artifact_references req ≡ none) where
    abbrev bundles : List ReleaseBundle
    bundles = db.release_bundles ++ bundle_row req now ∷ []

    rows-HasDigest :
        (rs : List ReleaseArtifactRequest)
        → ((s : String) → elem s (ids rs) ≡ true → elem s (digest_ids req) ≡ true)
        → All (HasDigest bundles) (rows rs)
    unfolding artifact_row bundle_row elem
    rows-HasDigest [] h = tt
    rows-HasDigest (r ∷ rs) h = (
      (
        bundle_row req now,
        find-append_new (λ b. b.release_id == req.release_id) db.release_bundles
            (bundle_row req now) (new_bundle db free) (str_refl req.release_id),
        h r.artifact_id (ground (arith, str_refl r.artifact_id)),
      ),
      rows-HasDigest rs (λ s e. h s (ground arith)),
    )

    store-IsSound : IsSound (store req now db)
    unfolding store bundle_row
    store-IsSound =
        let (unique, same) = (validate_artifact_references_iff req).0 accepted in
        record {
          releases =
              Unique-append (λ b. b.release_id) db.release_bundles (bundle_row req now)
                sound.releases (ap is_some (new_bundle db free));
          artifacts =
              Unique-append_rows db.release_artifacts req.artifacts sound.artifacts unique
                (no_artifact db free);
          digests =
              All-concat (HasDigest bundles) db.release_artifacts (rows req.artifacts)
                (All-map (HasDigest db.release_bundles) (HasDigest bundles)
                  (λ a (b, found, listed). (
                    b,
                    find-append_old (λ r. r.release_id == a.release_id) db.release_bundles
                        (bundle_row req now ∷ []) b found,
                    listed,
                  ))
                  db.release_artifacts sound.digests)
                (rows-HasDigest req.artifacts (λ s e. sym (same s) ∙ e));
        }

-- Whatever is asked of the endpoint, releases and artifacts keep distinct identifiers, and every
-- artifact has a digest in the bundle of its release.
pub create_release_bundle-IsSound :
    (req : ReleaseBundleRequest) (now : ℕ) (db : Database)
    → IsSound db
    → IsSound (create_release_bundle req now db).1
unfolding create_release_bundle
create_release_bundle-IsSound req now db sound = elim (Bool-cases (is_valid_request req)) [
  | inr bad ↦ rw bad sound
  | inl valid ↦ elim (Option-cases (validate_artifact_references req)) [
    | inr (x, wrong) ↦ rw (valid, wrong) sound
    | inl accepted ↦ elim (Bool-cases (violates req db)) [
      | inl clash ↦ rw (valid, accepted, clash) sound
      | inr free ↦ rw (valid, accepted, free) (store-IsSound req now db sound free accepted)
    ]
  ]
]

-- A bundle is stored exactly if its fields are filled in, its artifacts are distinct and those that
-- have a digest, and neither its release nor any of its artifacts is stored already, be it in another
-- release.
pub create_release_bundle_iff :
    (req : ReleaseBundleRequest) (now : ℕ) (db : Database)
    → ((r : ReleaseBundleResponse) × ((create_release_bundle req now db).0 ≡ Reply.created r)) ↔ (
        (is_valid_request req ≡ true)
        × Unique (λ s. s) (artifact_ids req)
        × SameTexts (artifact_ids req) (digest_ids req)
        × (find (λ b. b.release_id == req.release_id) db.release_bundles ≡ none)
        × ((s : String)
            → elem s (artifact_ids req) ≡ true
            → is_some (find (λ a. a.artifact_id == s) db.release_artifacts) ≡ false))
unfolding create_release_bundle
create_release_bundle_iff req now db = (
  λ (r, e). elim (Bool-cases (is_valid_request req)) [
    | inr bad ↦ absurd (ground arith)
    | inl valid ↦ elim (Option-cases (validate_artifact_references req)) [
      | inr (x, wrong) ↦ absurd (ground arith)
      | inl accepted ↦ elim (Bool-cases (violates req db)) [
        | inl clash ↦ absurd (ground arith)
        | inr free ↦
            let (unique, same) = (validate_artifact_references_iff req).0 accepted in
            (valid, unique, same, new_bundle req now db free, no_artifact req now db free)
      ]
    ]
  ],
  λ (valid, unique, same, new, none_old).
      let accepted = (validate_artifact_references_iff req).1 (unique, same) in
      let free = not_violated req now db new none_old in (response_of req now, ground arith),
)
