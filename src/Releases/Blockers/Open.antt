-- ===== src/Releases/Blockers/Open.antt =====
-- A release is blocked exactly by what is open.
use Prim.Native.String.{◌++◌}
use Prim.Native.String.append as Append
use sps_v.Common.{
  ℕ, ◌<◌, ◌+◌, String, ◌≡◌, ◌≢◌, ◌↔◌, ◌⊎◌, refl, inl, inr, Bool, true, some, none, Bool-cases, List,
  [], ◌∷◌, map, nat_eq, string_eq, eq_iff, filter, count, length, Exists, Exists-map, Exists-last,
  arith,
}
use sps_v.Contracts.Enums.{ReviewDecisionOutcome}
use sps_v.Contracts.Transition.{StateTransitionRequest}
use sps_v.Db.{Database, ContradictionArtifact, DissentArtifact}
use sps_v.Guard.Spec.{HasBlocker}
use sps_v.Reviews.Decisions.{
  CreateReviewDecisionRequest, dissent_row, writes, create_review_decision,
}
use sps_v.Reviews.Decisions.Effects.{IsCreated-signal}
use sps_v.Releases.Blockers.{
  like, ends_like, is_blocking_contradiction, is_blocking_dissent, contradiction_item, dissent_item,
  Sorts, build_release_blockers_response,
}

length-map : {A B : Type 0} (f : A → B) (xs : List A) → length (map f xs) ≡ length xs
unfolding count
length-map f [] = refl
length-map f (x ∷ xs) = ground (arith, length-map f xs)

none_selected_iff :
    {A : Type 0} (p : A → Bool) (xs : List A)
    → (length (filter p xs) ≡ 0) ↔ (¬ Exists (λ x. p x ≡ true) xs)
unfolding count filter
none_selected_iff p [] = (λ e h. h, λ n. refl)
none_selected_iff p (x ∷ xs) = elim (Bool-cases (p x)) [
  | inl here ↦ (λ e. absurd (ground arith), λ n. absurd (n (inl here)))
  | inr other ↦ (
    λ e h. elim h [ inl here ↦ cc | inr there ↦ (none_selected_iff p xs).0 (ground arith) there ],
    λ n. rw other ((none_selected_iff p xs).1 (λ h. n (inr h))),
  )
]

-- A sort keeps the number of rows.
pub record KeepsLength (sorts : Sorts) : Type 0 where
  pub contradictions :
      (xs : List ContradictionArtifact) → length (sorts.contradictions xs) ≡ length xs
  pub dissents : (xs : List DissentArtifact) → length (sorts.dissents xs) ≡ length xs

abbrev pub IsOpenContradiction : ContradictionArtifact → Type 0
IsOpenContradiction c = (c.blocking_effect ≡ true) × (c.resolution_status ≡ "OPEN")

abbrev pub IsOpenDissent : DissentArtifact → Type 0
IsOpenDissent d =
    (d.resolution_state ≡ "OPEN")
    × ((ends_like "HIGH_RISK" d.scope ≡ true) ⊎ (ends_like "AUTHORITY_BOUNDARY" d.scope ≡ true))

contradiction_iff :
    (c : ContradictionArtifact) → (is_blocking_contradiction c ≡ true) ↔ IsOpenContradiction c
contradiction_iff c = (
  λ h. (ground arith, ground (arith, eq_iff c.resolution_status "OPEN")),
  λ (b, o). ground (arith, eq_iff c.resolution_status "OPEN"),
)

dissent_iff : (d : DissentArtifact) → (is_blocking_dissent d ≡ true) ↔ IsOpenDissent d
dissent_iff d = (
  λ h. (
    ground (arith, eq_iff d.resolution_state "OPEN"),
    elim (Bool-cases (ends_like "HIGH_RISK" d.scope)) [
      | inl high ↦ inl high
      | inr low ↦ inr (ground arith)
    ],
  ),
  λ (o, s). elim s [
    | inl high ↦ ground (arith, eq_iff d.resolution_state "OPEN")
    | inr boundary ↦ ground (arith, eq_iff d.resolution_state "OPEN")
  ],
)

module _ (sorts : Sorts) (keeps : KeepsLength sorts) (now : ℕ) (db : Database) where
  count_of :
      (build_release_blockers_response sorts now db).blocker_count
      ≡ length (filter is_blocking_contradiction db.contradiction_artifacts)
        + length (filter is_blocking_dissent db.dissent_artifacts)
  unfolding build_release_blockers_response
  count_of =
      let cs = filter is_blocking_contradiction db.contradiction_artifacts in
      let ds = filter is_blocking_dissent db.dissent_artifacts in
      omega (
        arith,
        length-map contradiction_item (sorts.contradictions cs),
        length-map dissent_item (sorts.dissents ds),
        keeps.contradictions cs,
        keeps.dissents ds,
      )

  -- If the sorts keep the number of rows, the count of blockers is zero exactly if no contradiction is
  -- open and blocking and no dissent of a high risk or an authority boundary is open.
  pub unblocked_iff : ((build_release_blockers_response sorts now db).blocker_count ≡ 0) ↔ (
      (¬ Exists IsOpenContradiction db.contradiction_artifacts)
      × (¬ Exists IsOpenDissent db.dissent_artifacts))
  unblocked_iff =
      let cs = none_selected_iff is_blocking_contradiction db.contradiction_artifacts in
      let ds = none_selected_iff is_blocking_dissent db.dissent_artifacts in
      let e = count_of in
      (
        λ h. (
          λ c. cs.0 (omega arith) (Exists-map (λ x. (contradiction_iff x).1) _ c),
          λ d. ds.0 (omega arith) (Exists-map (λ x. (dissent_iff x).1) _ d),
        ),
        λ (c, d).
            let c0 = cs.1 (λ h. c (Exists-map (λ x. (contradiction_iff x).0) _ h)) in
            let d0 = ds.1 (λ h. d (Exists-map (λ x. (dissent_iff x).0) _ h)) in omega arith,
      )

  blocked :
      ¬ ((build_release_blockers_response sorts now db).blocker_count ≡ 0)
      → 0 < (build_release_blockers_response sorts now db).blocker_count
  blocked n = omega arith

  -- If the sorts keep the number of rows, a contradiction that shuts the review gate
  -- of a transition blocks the release.
  pub HasBlocker-blocks :
      (transition : StateTransitionRequest) (at : ℕ)
      → HasBlocker transition at db
      → 0 < (build_release_blockers_response sorts now db).blocker_count
  HasBlocker-blocks transition at h =
      let open_one =
        Exists-map (λ c (same, blocking, o). (blocking, o)) db.contradiction_artifacts h in
      blocked (λ e. (unblocked_iff.0 e).0 open_one)

like_refl : (s : String) → like s s ≡ true
unfolding like
like_refl String.[] = refl
like_refl (String.◌∷◌ c s) = ground (arith, like_refl s)

-- A text that ends in another does so for `LIKE`.
pub ends_like-append : (s p : String) → ends_like p (s ++ p) ≡ true
unfolding ends_like like
ends_like-append String.[] String.[] = refl
ends_like-append String.[] (String.◌∷◌ d p) =
    rw Append.nil (ground (arith, like_refl (String.◌∷◌ d p)))
ends_like-append (String.◌∷◌ c s) p =
    let later = ends_like-append s p in rw Append.cons (ground arith)

-- If the sorts keep the number of rows, then after a review decision was created that accepts with a
-- dissent of high risk, the release is blocked.
pub create_review_decision-blocks :
    (sorts : Sorts)
    → KeepsLength sorts
    → (event_id : String) (now at : ℕ) (req : CreateReviewDecisionRequest) (db : Database)
      (surface : String)
    → (create_review_decision event_id now req db).signal ≢ none
    → req.outcome ≡ ReviewDecisionOutcome.accept_with_dissent
    → req.dissent_scope ≡ some (surface ++ "HIGH_RISK")
    → 0
      < (build_release_blockers_response sorts at
          (create_review_decision event_id now req db).db).blocker_count
unfolding dissent_row writes
create_review_decision-blocks sorts keeps event_id now at req db surface sent dissents high =
    let (s, made) = IsCreated-signal event_id now req db sent in
    let after = (create_review_decision event_id now req db).db in
    let is_open : IsOpenDissent (dissent_row req now) =
      (refl, inl (rw high (ends_like-append surface "HIGH_RISK"))) in
    let stored : Exists IsOpenDissent after.dissent_artifacts =
      rw (made.written, dissents)
        (Exists-last IsOpenDissent db.dissent_artifacts (dissent_row req now) is_open) in
    blocked sorts keeps at after (λ e. ((unblocked_iff sorts keeps at after).0 e).1 stored)
