-- ===== src/Packages.antt =====
-- `persist_submission_package` of src/sps/workflows/permit_case/activities_impl.py.
pub mod Once
pub mod Moves
mod Examples
use mathlib.Core.List.{◌++◌ as ◌++ᴸ◌}
use sps_v.Common.{
  ℕ, String, Bool, true, false, not, ◌&&◌, ◌||◌, Option, none, some, List, [], ◌∷◌, map, ◌==◌,
  string_eq, if◌then◌else◌, is_some, find, filter, latest, update, Result, ok, err, Error,
}
use sps_v.Contracts.CaseState.{CaseState, state_eq, incentives_complete, document_complete}
use sps_v.Db.{Database, PermitCase, SubmissionPackage, EvidenceArtifact, DocumentArtifact}
use sps_v.Cases.{find_case}

pub record PersistSubmissionPackageRequest : Type 0 where
  pub request_id : String
  pub case_id : String

-- A document that was generated and registered, and the new identifier of its row.
pub record RegisteredDocument : Type 0 where
  pub document_id : String
  pub document_type : String
  pub template_name : String
  pub artifact_id : String
  pub sha256_digest : String
  pub document_artifact_id : String

-- What the generator and the evidence registry make of the adapter's documents, one for each, with
-- the identifiers that they draw and the time at which the database stamps the row.
pub record RegisteredPackage : Type 0 where
  pub package_id : String
  pub package_version : String
  pub manifest_artifact_id : String
  pub manifest_sha256_digest : String
  pub documents : List RegisteredDocument
  pub created_at : ℕ

abbrev pub get_package : String → Database → Option SubmissionPackage
get_package id db = find (λ p. p.package_id == id) db.submission_packages

abbrev is_request : Option String → String → Bool
is_request none id = false
is_request (some r) id = r == id

-- The newest package of the case whose provenance names the request.
pub package_of_request : PersistSubmissionPackageRequest → Database → Option SubmissionPackage
package_of_request req db =
    latest (λ p. p.created_at)
      (filter (λ p. p.case_id == req.case_id && is_request p.request_id req.request_id)
        db.submission_packages)

module _ (built : RegisteredPackage) (req : PersistSubmissionPackageRequest) where
  pub evidence_row : String → String → String → EvidenceArtifact
  evidence_row artifact_id artifact_class object_id = record {
    artifact_id = artifact_id;
    artifact_class = artifact_class;
    linked_case_id = some req.case_id;
    linked_object_id = some object_id;
    retention_class = "CASE_CORE_7Y";
    expires_at = none;
    legal_hold_flag = false;
  }

  pub evidence_rows : List EvidenceArtifact
  evidence_rows =
      evidence_row built.manifest_artifact_id "MANIFEST" built.package_id
      ∷ map (λ d. evidence_row d.artifact_id "DOCUMENT" d.document_id) built.documents

  pub package_row : SubmissionPackage
  package_row = record {
    package_id = built.package_id;
    case_id = req.case_id;
    package_version = built.package_version;
    manifest_artifact_id = built.manifest_artifact_id;
    manifest_sha256_digest = built.manifest_sha256_digest;
    request_id = some req.request_id;
    created_at = built.created_at;
  }

  pub document_rows : List DocumentArtifact
  document_rows =
      map
        (λ d. record {
          document_artifact_id = d.document_artifact_id;
          package_id = built.package_id;
          document_id = d.document_id;
          document_type = d.document_type;
          template_name = d.template_name;
          evidence_artifact_id = d.artifact_id;
          sha256_digest = d.sha256_digest;
        })
        built.documents

  -- Some row of the list has the key of another, or of one that is there.
  pub clash {ℓ} : {A : Type ℓ} → (A → String) → List A → List A → Bool
  clash key [] there = false
  clash key (x ∷ xs) there =
      is_some (find (λ y. key y == key x) there)
      || (is_some (find (λ y. key y == key x) xs) || clash key xs there)

  -- The constraints that the flushes and the commit check.
  pub conflicts : Database → Bool
  conflicts db =
      not (is_some (find_case req.case_id db))
      || (clash (λ e. e.artifact_id) evidence_rows db.evidence_artifacts
          || clash (λ d. d.document_artifact_id) document_rows db.document_artifacts)

  -- What the transaction assigns to the case, whose state it has read.
  pub point_to_package : CaseState → PermitCase → PermitCase
  point_to_package seen c = record c {
    current_package_id = some built.package_id;
    case_state = if seen == incentives_complete then document_complete else c.case_state;
  }

  pub stores : CaseState → Database → Database
  unfolding evidence_row evidence_rows package_row document_rows point_to_package
  stores seen db = record db {
    permit_cases = update (λ c. c.case_id == req.case_id) (point_to_package seen) db.permit_cases;
    submission_packages = db.submission_packages ++ᴸ package_row ∷ [];
    evidence_artifacts = db.evidence_artifacts ++ᴸ evidence_rows;
    document_artifacts = db.document_artifacts ++ᴸ document_rows;
  }

  -- After an `IntegrityError`: the package of the request, if another attempt has stored it.
  pub reload : Database → Result String
  reload db = elim (package_of_request req db) [
    | none ↦ err Error.runtime_error
    | some p ↦ ok p.package_id
  ]

  -- The transaction. The case is read without a lock: `racing` is what others commit between the
  -- read and this commit, which overwrites the columns that it assigns.
  pub store : (Database → Database) → Database → Result String × Database
  store racing db =
      if is_some (get_package built.package_id db)
      then (ok built.package_id, db)
      else if conflicts db
      then (reload db, db)
      else elim (find_case req.case_id db) [
        | none ↦ (err Error.runtime_error, db)
        | some case ↦ (ok built.package_id, stores case.case_state (racing db))
      ]

-- The activity; `others` is what other transactions commit while the documents are registered.
pub persist_submission_package :
    (others racing : Database → Database)
    → RegisteredPackage
    → PersistSubmissionPackageRequest
    → Database
    → Result String × Database
persist_submission_package others racing built req db = elim built.documents [
  | [] ↦ (err Error.lookup_error, db)
  | d ∷ ds ↦ elim (package_of_request req db) [
    | some p ↦ (ok p.package_id, db)
    | none ↦ store built req racing (others db)
  ]
]
