-- ===== src/Releases/References.antt =====
-- Which lists of artifacts the endpoint accepts.
use sps_v.Common.{
  ◌≤◌, ◌<◌, String, ◌≡◌, ◌↔◌, refl, sym, ◌∙◌, inl, inr, Bool, true, false, not, none, Bool-cases,
  List, [], ◌∷◌, ◌==◌, string_eq, eq_iff, str_refl, ltb, is_some, find, filter, count, elem, Unique,
  arith,
}
use sps_v.Common.Text.{sorted_set, sorted_set-nil}
use sps_v.Releases.{
  ReleaseBundleRequest, artifact_ids, digest_ids, repeated, difference, duplicates_first, mismatch,
  validate_artifact_references,
}

-- The lists hold the same texts.
abbrev pub SameTexts : List String → List String → Type 0
SameTexts xs ys = (s : String) → elem s xs ≡ elem s ys

abbrev IsUnique : List String → Type 0
IsUnique = Unique (λ s. s)

filter_nil-elem :
    (p : String → Bool) (xs : List String) (s : String)
    → filter p xs ≡ []
    → elem s xs ≡ true
    → p s ≡ false
unfolding filter elem
filter_nil-elem p [] s e h = cc
filter_nil-elem p (x ∷ xs) s e h = ground (arith, eq_iff x s, filter_nil-elem p xs s)

filter_nil :
    (p : String → Bool) (xs : List String)
    → ((s : String) → elem s xs ≡ true → p s ≡ false)
    → filter p xs ≡ []
unfolding filter elem
filter_nil p [] h = refl
filter_nil p (x ∷ xs) h =
    ground (arith, h x, str_refl x, filter_nil p xs (λ s e. h s (ground arith)))

sorted_nil : (xs : List String) → xs ≡ [] → sorted_set xs ≡ []
unfolding sorted_set
sorted_nil xs e = rw e refl

difference_iff :
    (xs ys : List String)
    → (difference xs ys ≡ []) ↔ ((s : String) → elem s xs ≡ true → elem s ys ≡ true)
unfolding difference
difference_iff xs ys = (
  λ e s h.
      let kept = filter_nil-elem (λ x. not (elem x ys)) xs s (sorted_set-nil _ e) h in ground arith,
  λ h. sorted_nil _ (filter_nil (λ x. not (elem x ys)) xs (λ s e. let f = h s e in ground arith)),
)

count_positive : (s : String) (xs : List String) → (elem s xs ≡ true) ↔ (0 < count (λ j. j == s) xs)
unfolding elem count
count_positive s [] = (λ h. cc, λ h. absurd (omega arith))
count_positive s (x ∷ xs) = elim (Bool-cases (x == s)) [
  | inl here ↦ (λ h. ground arith, λ h. ground arith)
  | inr other ↦
      (λ h. ground (arith, (count_positive s xs).0), λ h. ground (arith, (count_positive s xs).1))
]

pub found_iff : (s : String) (xs : List String) → is_some (find (λ y. y == s) xs) ≡ elem s xs
unfolding elem find
found_iff s [] = refl
found_iff s (x ∷ xs) = ground (arith, found_iff s xs)

-- A list is without repetition exactly if no text is counted twice.
IsUnique-iff : (xs : List String) → IsUnique xs ↔ ((s : String) → count (λ j. j == s) xs ≤ 1)
unfolding count
IsUnique-iff [] = (λ h s. omega arith, λ h. tt)
IsUnique-iff (x ∷ xs) = (
  λ (new, rest) s. ground (
    arith,
    (IsUnique-iff xs).0 rest s,
    eq_iff x s,
    found_iff x xs,
    (count_positive s xs).1,
    found_iff s xs,
  ),
  λ h. (
    ground (arith, h x, str_refl x, found_iff x xs, (count_positive x xs).0),
    (IsUnique-iff xs).1 (λ s. let b = h s in ground arith),
  ),
)

repeated_iff : (xs : List String) → (repeated xs ≡ []) ↔ IsUnique xs
unfolding repeated
repeated_iff xs = (
  λ e. (IsUnique-iff xs).1 (λ s. elim (Bool-cases (elem s xs)) [
    | inl there ↦
        let few =
          filter_nil-elem (λ i. ltb 1 (count (λ j. j == i) xs)) xs s (sorted_set-nil _ e) there in
        ground arith
    | inr missing ↦ let c = (count_positive s xs).1 in ground arith
  ]),
  λ u. sorted_nil _ (
      filter_nil (λ i. ltb 1 (count (λ j. j == i) xs)) xs
        (λ s e. let few = (IsUnique-iff xs).0 u s in ground arith)),
)

none_iff :
    (xs ys zs : List String)
    → (duplicates_first xs (mismatch ys zs) ≡ none) ↔ ((xs ≡ []) × (ys ≡ []) × (zs ≡ []))
none_iff [] [] [] = (λ e. (refl, refl, refl), λ h. refl)
none_iff [] [] (z ∷ zs) = (λ e. cc, λ (a, b, c). cc)
none_iff [] (y ∷ ys) zs = (λ e. cc, λ (a, b, c). cc)
none_iff (x ∷ xs) ys zs = (λ e. cc, λ (a, b, c). cc)

both_ways :
    (s : String) (xs ys : List String)
    → (elem s xs ≡ true → elem s ys ≡ true)
    → (elem s ys ≡ true → elem s xs ≡ true)
    → elem s xs ≡ elem s ys
both_ways s xs ys f g = elim (Bool-cases (elem s xs)) [
  | inl in_xs ↦ in_xs ∙ sym (f in_xs)
  | inr out ↦ elim (Bool-cases (elem s ys)) [
    | inl in_ys ↦ absurd (cc (g in_ys, out))
    | inr out_too ↦ out ∙ sym out_too
  ]
]

-- The references of a bundle are accepted exactly if no artifact is listed twice and the artifacts that
-- are listed are those that have a digest.
pub validate_artifact_references_iff :
    (req : ReleaseBundleRequest)
    → (validate_artifact_references req ≡ none)
      ↔ (IsUnique (artifact_ids req) × SameTexts (artifact_ids req) (digest_ids req))
unfolding validate_artifact_references
validate_artifact_references_iff req =
    let ids = artifact_ids req in
    let ds = digest_ids req in
    (
      λ e.
          let (r, m, u) = (none_iff (repeated ids) (difference ids ds) (difference ds ids)).0 e in
          (
            (repeated_iff ids).0 r,
            λ s. both_ways s ids ds ((difference_iff ids ds).0 m s) ((difference_iff ds ids).0 u s),
          ),
      λ (u, same). (none_iff (repeated ids) (difference ids ds) (difference ds ids)).1 (
        (repeated_iff ids).1 u,
        (difference_iff ids ds).1 (λ s h. sym (same s) ∙ h),
        (difference_iff ds ids).1 (λ s h. same s ∙ h),
      ),
    )
