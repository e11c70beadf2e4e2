-- ===== src/Retention/Examples.antt =====
-- An expired artifact whose case is under an active hold.
use sps_v.Common.{
  String, ◌≡◌, ◌≢◌, ◌↔◌, refl, true, false, none, some, List, [], ◌∷◌, ◌==◌, string_eq, find,
  filter, elem, eq_iff,
}
use sps_v.Db.{Database, EvidenceArtifact}
use sps_v.Db.Samples.{empty}
use sps_v.Retention.Holds.{IsHeld, IsCaseHeld, assert_not_on_legal_hold_lem}
use sps_v.Retention.Purge.{dry_run_purge-assert_not_on_legal_hold}
use sps_v.Retention.{find_hold, assert_not_on_legal_hold, is_eligible, dry_run_purge}

abbrev sample_artifact : EvidenceArtifact
sample_artifact = record {
  artifact_id = "artifact-1";
  artifact_class = "INPUT";
  linked_case_id = some "case-1";
  linked_object_id = none;
  retention_class = "CASE_CORE_7Y";
  expires_at = some 10;
  legal_hold_flag = false;
}

abbrev sample_db : Database
sample_db = record empty {
  evidence_artifacts = sample_artifact ∷ [];
  legal_holds = record { hold_id = "hold-1"; reason = "audit"; status = "ACTIVE" } ∷ [];
  legal_hold_bindings =
      record {
        binding_id = "binding-1";
        hold_id = "hold-1";
        artifact_id = none;
        case_id = some "case-1";
      }
      ∷ [];
}

-- The order of a single identifier.
abbrev as_stored : List String → List String
as_stored xs = xs

hold_named : ◌≢◌ {A = String} "hold-1" ""
hold_named e = cc ((eq_iff "hold-1" "").1 e)

artifact_found :
    find (λ x. x.artifact_id == "artifact-1") sample_db.evidence_artifacts ≡ some sample_artifact
unfolding find
artifact_found = refl

artifact_listed : elem "artifact-1" (dry_run_purge as_stored sample_db 10) ≡ true
unfolding dry_run_purge is_eligible find_hold find filter elem
artifact_listed = refl

assert_not_on_legal_hold_lem_example :
    (assert_not_on_legal_hold sample_db "artifact-1" "purge" ≡ none)
    ↔ (¬ IsHeld sample_db sample_artifact)
assert_not_on_legal_hold_lem_example =
    assert_not_on_legal_hold_lem sample_db sample_artifact "purge" artifact_found (hold_named, tt)

dry_run_purge-assert_not_on_legal_hold_example :
    (assert_not_on_legal_hold sample_db "artifact-1" "purge" ≡ none)
    ↔ (¬ IsCaseHeld sample_db (some "case-1"))
dry_run_purge-assert_not_on_legal_hold_example =
    dry_run_purge-assert_not_on_legal_hold as_stored (λ xs s. refl) sample_db 10 sample_artifact
      "purge" artifact_found (hold_named, tt) artifact_listed
