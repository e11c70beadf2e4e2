-- ===== src/Retention.antt =====
-- Legal holds: `assert_not_on_legal_hold` of src/sps/retention/guard.py and `dry_run_purge` of
-- src/sps/retention/purge.py. The collation by which Postgres sorts is a parameter.
mod Examples
pub mod Holds
pub mod Purge
use sps_v.Common.{
  ℕ, String, Bool, true, false, not, ◌&&◌, Option, none, some, List, [], ◌∷◌, ◌==◌, string_eq,
  if◌then◌else◌, leb, is_some, find, filter, map,
}
use sps_v.Db.{Database, EvidenceArtifact, LegalHold, LegalHoldBinding}

pub data HoldReason : Type 0 where
  artifact_held case_held : HoldReason

-- `InvariantDenied`; its `invariant_id` is always INV-004.
pub record InvariantDenied : Type 0 where
  pub operation : String
  pub reason : HoldReason
  pub artifact_id : String
  pub hold_id : String

-- A nullable column compared with a value: NULL equals nothing.
abbrev pub column_is : Option String → String → Bool
column_is none value = false
column_is (some s) value = s == value

-- The join of a binding with its hold, restricted to active ones.
abbrev pub is_active : Database → LegalHoldBinding → Bool
is_active db b = is_some (find (λ h. h.hold_id == b.hold_id && h.status == "ACTIVE") db.legal_holds)

abbrev pub binds_artifact : String → LegalHoldBinding → Bool
binds_artifact artifact_id b = column_is b.artifact_id artifact_id

abbrev pub binds_case : String → LegalHoldBinding → Bool
binds_case case_id b = column_is b.case_id case_id

-- `select(LegalHold.hold_id).join(...).where(...).limit(1)`
pub find_hold : Database → (LegalHoldBinding → Bool) → Option LegalHoldBinding
find_hold db target = find (λ b. target b && is_active db b) db.legal_hold_bindings

-- `if hold_id: raise InvariantDenied(...)`
abbrev pub raise_if :
    Option LegalHoldBinding
    → String
    → String
    → HoldReason
    → Option InvariantDenied
    → Option InvariantDenied
raise_if none artifact_id operation reason rest = rest
raise_if (some b) artifact_id operation reason rest =
    if b.hold_id == ""
    then rest
    else some (record {
      operation = operation;
      reason = reason;
      artifact_id = artifact_id;
      hold_id = b.hold_id;
    })

-- The second check, for an artifact that is linked to a case.
pub check_case_hold : Database → Option String → String → String → Option InvariantDenied
check_case_hold db none artifact_id operation = none
check_case_hold db (some case_id) artifact_id operation =
    if case_id == ""
    then none
    else raise_if (find_hold db (binds_case case_id)) artifact_id operation HoldReason.case_held
        none

-- What `assert_not_on_legal_hold` raises, or `none` if it returns.
pub assert_not_on_legal_hold : Database → String → String → Option InvariantDenied
assert_not_on_legal_hold db artifact_id operation =
    elim (find (λ a. a.artifact_id == artifact_id) db.evidence_artifacts) [
      | none ↦ none
      | some artifact ↦
          raise_if (find_hold db (binds_artifact artifact_id)) artifact_id operation
            HoldReason.artifact_held
            (check_case_hold db artifact.linked_case_id artifact_id operation)
    ]

-- `expires_at` is set and `expires_at <= as_of`.
abbrev pub is_expired : ℕ → EvidenceArtifact → Bool
is_expired as_of a = elim a.expires_at [ none ↦ false | some at ↦ leb at as_of ]

pub is_eligible : Database → ℕ → EvidenceArtifact → Bool
is_eligible db as_of a =
    is_expired as_of a && not (is_some (find_hold db (binds_artifact a.artifact_id)))

-- `dry_run_purge`; `order_by` sorts the identifiers.
pub dry_run_purge : (List String → List String) → Database → ℕ → List String
dry_run_purge order_by db as_of =
    order_by (map (λ a. a.artifact_id) (filter (is_eligible db as_of) db.evidence_artifacts))
