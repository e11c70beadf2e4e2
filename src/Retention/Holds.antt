-- ===== src/Retention/Holds.antt =====
-- The guard denies exactly the artifacts that an active hold binds, directly or by their case.
use sps_v.Common.{
  String, ◌≡◌, ◌≢◌, ◌↔◌, ◌⊎◌, refl, sym, ◌∙◌, Bool, true, false, ◌&&◌, Option, none, some, ◌==◌,
  string_eq, arith, eq_iff, is_some, find, inl, inr, Bool-cases, Option-cases, Exists, Exists-map,
  Exists-find, find_of_Exists, All, All-find, subst,
}
use sps_v.Db.{Database, EvidenceArtifact, LegalHoldBinding}
use sps_v.Retention.{
  InvariantDenied, HoldReason, is_active, binds_artifact, binds_case, find_hold, raise_if,
  check_case_hold, assert_not_on_legal_hold,
}

-- A binding of an active hold satisfies `target`.
pub HasActiveHold : Database → (LegalHoldBinding → Type 0) → Type 0
HasActiveHold db target =
    Exists
      (λ b. target b × Exists (λ h. (h.hold_id ≡ b.hold_id) × (h.status ≡ "ACTIVE")) db.legal_holds)
      db.legal_hold_bindings

-- An active hold binds the artifact, or the case that the artifact is linked to.
pub IsHeld : Database → EvidenceArtifact → Type 0
IsHeld db a =
    HasActiveHold db (λ b. b.artifact_id ≡ some a.artifact_id)
    ⊎ ((case_id : String) × (a.linked_case_id ≡ some case_id)
        × (case_id ≢ "")
        × HasActiveHold db (λ b. b.case_id ≡ some case_id))

module _ (db : Database) where
  active_sound :
      (b : LegalHoldBinding)
      → is_active db b ≡ true
      → Exists (λ h. (h.hold_id ≡ b.hold_id) × (h.status ≡ "ACTIVE")) db.legal_holds
  active_sound b h =
      Exists-map (λ x p. ground (arith, eq_iff x.hold_id b.hold_id, eq_iff x.status "ACTIVE"))
        db.legal_holds
        (Exists-find (λ x. x.hold_id == b.hold_id && x.status == "ACTIVE") db.legal_holds h)

  active_complete :
      (b : LegalHoldBinding)
      → Exists (λ h. (h.hold_id ≡ b.hold_id) × (h.status ≡ "ACTIVE")) db.legal_holds
      → is_active db b ≡ true
  active_complete b h =
      find_of_Exists (λ x. x.hold_id == b.hold_id && x.status == "ACTIVE") db.legal_holds
        (Exists-map (λ x p. ground (arith, eq_iff x.hold_id b.hold_id, eq_iff x.status "ACTIVE"))
          db.legal_holds h)

  module _ (target : LegalHoldBinding → Bool) (Target : LegalHoldBinding → Type 0)
      (agree : (b : LegalHoldBinding) → (target b ≡ true) ↔ Target b) where
    pub find_hold_sound : is_some (find_hold db target) ≡ true → HasActiveHold db Target
    unfolding find_hold HasActiveHold
    find_hold_sound h =
        Exists-map (λ b p. ((agree b).0 (ground arith), active_sound b (ground arith)))
          db.legal_hold_bindings
          (Exists-find (λ b. target b && is_active db b) db.legal_hold_bindings h)

    pub find_hold_complete : HasActiveHold db Target → is_some (find_hold db target) ≡ true
    unfolding find_hold HasActiveHold
    find_hold_complete h =
        find_of_Exists (λ b. target b && is_active db b) db.legal_hold_bindings
          (Exists-map (λ b p. ground (arith, (agree b).1 p.0, active_complete b p.1))
            db.legal_hold_bindings h)

pub binds_artifact_iff :
    (id : String) (b : LegalHoldBinding) → (binds_artifact id b ≡ true) ↔ (b.artifact_id ≡ some id)
binds_artifact_iff id b = elim (Option-cases b.artifact_id) [
  | inl p ↦ ground arith
  | inr (x, p) ↦ ground (arith, eq_iff x id)
]

pub binds_case_iff :
    (id : String) (b : LegalHoldBinding) → (binds_case id b ≡ true) ↔ (b.case_id ≡ some id)
binds_case_iff id b = elim (Option-cases b.case_id) [
  | inl p ↦ ground arith
  | inr (x, p) ↦ ground (arith, eq_iff x id)
]

module _ (db : Database)
    (named : All (λ (b : LegalHoldBinding). b.hold_id ≢ "") db.legal_hold_bindings)
    (artifact_id operation : String) (reason : HoldReason) (rest : Option InvariantDenied) where
  -- With no empty identifier, a hold that is found is raised.
  pub raise_if-some :
      (target : LegalHoldBinding → Bool) (b : LegalHoldBinding)
      → find_hold db target ≡ some b
      → raise_if (find_hold db target) artifact_id operation reason rest
        ≡ some (record {
          operation = operation;
          reason = reason;
          artifact_id = artifact_id;
          hold_id = b.hold_id;
        })
  unfolding find_hold
  raise_if-some target b found =
      let ne =
        All-find (λ x. target x && is_active db x) (λ x. x.hold_id ≢ "") db.legal_hold_bindings b
          named found in
      ground (arith, eq_iff b.hold_id "")

  pub raise_if_iff :
      (target : LegalHoldBinding → Bool)
      → (raise_if (find_hold db target) artifact_id operation reason rest ≡ none)
        ↔ ((is_some (find_hold db target) ≡ false) × (rest ≡ none))
  raise_if_iff target = elim (Option-cases (find_hold db target)) [
    | inl free ↦ (λ e. (rw free refl, ground arith), λ h. ground arith)
    | inr (b, found) ↦
        let raised = raise_if-some target b found in (λ e. absurd (cc), λ h. absurd (ground arith))
  ]

pub IsCaseHeld : Database → Option String → Type 0
IsCaseHeld db link =
    (case_id : String) × (link ≡ some case_id)
    × (case_id ≢ "")
    × HasActiveHold db (λ b. b.case_id ≡ some case_id)

pub check_case_hold_iff :
    (db : Database) (link : Option String) (artifact_id operation : String)
    → All (λ (b : LegalHoldBinding). b.hold_id ≢ "") db.legal_hold_bindings
    → (check_case_hold db link artifact_id operation ≡ none) ↔ (¬ IsCaseHeld db link)
unfolding check_case_hold IsCaseHeld
check_case_hold_iff db none artifact_id operation named = (λ e h. none_link h, λ n. refl)
  where
    none_link : ¬ IsCaseHeld db none
    none_link h = let (c, p, ne, held) = h in cc
check_case_hold_iff db (some case_id) artifact_id operation named =
    let (out, back) =
      raise_if_iff db named artifact_id operation HoldReason.case_held none (binds_case case_id) in
    elim (Bool-cases (case_id == "")) [
      | inl empty ↦ (
        λ e h. let (c, p, ne, held) = h in ne (ground (arith, eq_iff case_id "")),
        λ n. ground arith,
      )
      | inr given ↦ (
        λ e h.
            let (c, p, ne, held) = h in
            let q : c ≡ case_id = cc in
            let found =
              find_hold_complete db (binds_case case_id) (λ b. b.case_id ≡ some case_id)
                (binds_case_iff case_id)
                (subst (λ x. HasActiveHold db (λ b. b.case_id ≡ some x)) q held) in
            cc (found, (out (ground arith)).0),
        λ n. elim (Bool-cases (is_some (find_hold db (binds_case case_id)))) [
          | inr free ↦ ground (arith, back (free, refl))
          | inl found ↦ absurd (
              n (
                case_id,
                refl,
                λ e. ground (arith, eq_iff case_id ""),
                find_hold_sound db (binds_case case_id) (λ b. b.case_id ≡ some case_id)
                    (binds_case_iff case_id) found,
              ))
        ],
      )
    ]

module _ (db : Database) (a : EvidenceArtifact) (operation : String) where
  pub assert_found :
      find (λ x. x.artifact_id == a.artifact_id) db.evidence_artifacts ≡ some a
      → assert_not_on_legal_hold db a.artifact_id operation
        ≡ raise_if
            (find_hold db (binds_artifact a.artifact_id))
            a.artifact_id
            operation
            HoldReason.artifact_held
            (check_case_hold db a.linked_case_id a.artifact_id operation)
  unfolding assert_not_on_legal_hold
  assert_found found = ground arith

  -- With no empty identifier among the holds, the guard lets an artifact that is stored under its
  -- identifier pass exactly if no active hold binds the artifact or the case it is linked to.
  pub assert_not_on_legal_hold_lem :
      find (λ x. x.artifact_id == a.artifact_id) db.evidence_artifacts ≡ some a
      → All (λ (b : LegalHoldBinding). b.hold_id ≢ "") db.legal_hold_bindings
      → (assert_not_on_legal_hold db a.artifact_id operation ≡ none) ↔ (¬ IsHeld db a)
  unfolding IsHeld IsCaseHeld
  assert_not_on_legal_hold_lem found named =
      let (out, back) =
        raise_if_iff db named a.artifact_id operation HoldReason.artifact_held
          (check_case_hold db a.linked_case_id a.artifact_id operation)
          (binds_artifact a.artifact_id) in
      let case = check_case_hold_iff db a.linked_case_id a.artifact_id operation named in
      let sound =
        find_hold_sound db (binds_artifact a.artifact_id) (λ b. b.artifact_id ≡ some a.artifact_id)
          (binds_artifact_iff a.artifact_id) in
      let complete =
        find_hold_complete db (binds_artifact a.artifact_id)
          (λ b. b.artifact_id ≡ some a.artifact_id) (binds_artifact_iff a.artifact_id) in
      (
        λ e held. elim held [
          | inl direct ↦ cc (complete direct, (out (sym (assert_found found) ∙ e)).0)
          | inr linked ↦ case.0 (out (sym (assert_found found) ∙ e)).1 linked
        ],
        λ n. elim (Bool-cases (is_some (find_hold db (binds_artifact a.artifact_id)))) [
          | inl direct ↦ absurd (n (inl (sound direct)))
          | inr free ↦ assert_found found ∙ back (free, case.1 (λ linked. n (inr linked)))
        ],
      )
