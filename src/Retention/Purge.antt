-- ===== src/Retention/Purge.antt =====
-- The purge list: what is on it, and what the guard says of that.
use sps_v.Common.{
  ℕ, ◌≤◌, String, ◌≡◌, ◌≢◌, ◌↔◌, refl, sym, ◌∙◌, true, none, some, List, ◌==◌, string_eq, arith,
  is_some, find, inl, inr, elem, map, filter, Bool-cases, Option-cases, Exists, Exists-map,
  Exists-elim, Exists-elem, elem_of_Exists, All, subst,
}
use sps_v.Db.{Database, EvidenceArtifact, LegalHoldBinding}
use sps_v.Retention.Holds.{
  HasActiveHold, IsCaseHeld, find_hold_sound, find_hold_complete, binds_artifact_iff,
  check_case_hold_iff, assert_found,
}
use sps_v.Retention.{
  binds_artifact, find_hold, check_case_hold, assert_not_on_legal_hold, is_eligible, dry_run_purge,
}

-- The artifact's time is over, and no active hold binds the artifact itself.
pub record IsPurgeable (db : Database) (as_of : ℕ) (a : EvidenceArtifact) : Type 0 where
  pub at : ℕ
  pub expires : a.expires_at ≡ some at
  pub over : at ≤ as_of
  pub not_bound : ¬ HasActiveHold db (λ b. b.artifact_id ≡ some a.artifact_id)

module _ (db : Database) (as_of : ℕ) (a : EvidenceArtifact) where
  eligible_sound : is_eligible db as_of a ≡ true → IsPurgeable db as_of a
  unfolding is_eligible
  eligible_sound h = elim (Option-cases a.expires_at) [
    | inl never ↦ absurd (ground arith)
    | inr (at, p) ↦ record {
      at = at;
      expires = p;
      over = ground arith;
      not_bound = λ held. ground (
        arith,
        find_hold_complete db (binds_artifact a.artifact_id)
            (λ b. b.artifact_id ≡ some a.artifact_id) (binds_artifact_iff a.artifact_id) held,
      );
    }
  ]

  eligible_complete : IsPurgeable db as_of a → is_eligible db as_of a ≡ true
  unfolding is_eligible
  eligible_complete h = elim (Bool-cases (is_some (find_hold db (binds_artifact a.artifact_id)))) [
    | inr free ↦ ground (arith, h.expires, h.over)
    | inl bound ↦ absurd (
        h.not_bound (
          find_hold_sound db (binds_artifact a.artifact_id)
            (λ b. b.artifact_id ≡ some a.artifact_id) (binds_artifact_iff a.artifact_id) bound))
  ]

module _ (order_by : List String → List String)
    (same : (xs : List String) (s : String) → elem s (order_by xs) ≡ elem s xs) (db : Database)
    (as_of : ℕ) where
  -- With a sort that keeps what it sorts, the purge list has exactly the identifiers of the artifacts
  -- whose time is over and that no active hold binds themselves.
  pub dry_run_purge_lem :
      (id : String)
      → (elem id (dry_run_purge order_by db as_of) ≡ true)
        ↔ Exists (λ a. (a.artifact_id ≡ id) × IsPurgeable db as_of a) db.evidence_artifacts
  unfolding dry_run_purge
  dry_run_purge_lem id = (
    λ h.
        Exists-map (λ a p. (p.0, eligible_sound db as_of a p.1)) db.evidence_artifacts
          (Exists-elem (λ a. a.artifact_id) (is_eligible db as_of) id db.evidence_artifacts
            (sym (
                same
                  (map (λ a. a.artifact_id) (filter (is_eligible db as_of) db.evidence_artifacts))
                  id)
              ∙ h)),
    λ h.
        same (map (λ a. a.artifact_id) (filter (is_eligible db as_of) db.evidence_artifacts)) id
        ∙ elem_of_Exists (λ a. a.artifact_id) (is_eligible db as_of) id db.evidence_artifacts
            (Exists-map (λ a p. (p.0, eligible_complete db as_of a p.1)) db.evidence_artifacts h),
  )

module _ (order_by : List String → List String)
    (same : (xs : List String) (s : String) → elem s (order_by xs) ≡ elem s xs) (db : Database)
    (as_of : ℕ) (a : EvidenceArtifact) (operation : String)
    (found : find (λ x. x.artifact_id == a.artifact_id) db.evidence_artifacts ≡ some a)
    (named : All (λ (b : LegalHoldBinding). b.hold_id ≢ "") db.legal_hold_bindings) where
  listed_guard :
      elem a.artifact_id (dry_run_purge order_by db as_of) ≡ true
      → assert_not_on_legal_hold db a.artifact_id operation
        ≡ check_case_hold db a.linked_case_id a.artifact_id operation
  listed_guard listed =
      let free : ¬ HasActiveHold db (λ b. b.artifact_id ≡ some a.artifact_id) =
        Exists-elim
          (λ x p. subst (λ i. ¬ HasActiveHold db (λ b. b.artifact_id ≡ some i)) p.0 p.1.not_bound)
          db.evidence_artifacts
          ((dry_run_purge_lem order_by same db as_of a.artifact_id).0 listed) in
      assert_found db a operation found
      ∙ (elim (Option-cases (find_hold db (binds_artifact a.artifact_id))) [
        | inl none_found ↦ rw none_found refl
        | inr (b, bound) ↦ absurd (
            free (
              find_hold_sound db (binds_artifact a.artifact_id)
                (λ x. x.artifact_id ≡ some a.artifact_id) (binds_artifact_iff a.artifact_id)
                (rw bound refl)))
      ])

  -- With a sort that keeps what it sorts and no empty identifier among the holds, an artifact that
  -- is stored under its identifier and is on the purge list is let pass by the guard exactly if no
  -- active hold binds the case that it is linked to.
  pub dry_run_purge-assert_not_on_legal_hold :
      elem a.artifact_id (dry_run_purge order_by db as_of) ≡ true
      → (assert_not_on_legal_hold db a.artifact_id operation ≡ none)
        ↔ (¬ IsCaseHeld db a.linked_case_id)
  dry_run_purge-assert_not_on_legal_hold listed =
      rw (listed_guard listed)
        (check_case_hold_iff db a.linked_case_id a.artifact_id operation named)
