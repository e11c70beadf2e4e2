-- ===== src/Packages/Examples.antt =====
-- A package of one document.
use sps_v.Common.{
  ◌≡◌, refl, false, none, some, [], ◌∷◌, is_some, find, filter, latest, update, map, ok, err, Error,
}
use sps_v.Contracts.CaseState.{incentives_complete, document_complete}
use sps_v.Db.{Database, PermitCase}
use sps_v.Db.Samples.{empty, sample_case}
use sps_v.Packages.{
  RegisteredPackage, RegisteredDocument, PersistSubmissionPackageRequest, get_package,
  package_of_request, conflicts, clash, evidence_row, evidence_rows, package_row, document_rows,
  point_to_package, stores, store, persist_submission_package,
}
use sps_v.Packages.Once.{persist_submission_package-persist_submission_package}

abbrev ready_case : PermitCase
ready_case = record sample_case { case_state = incentives_complete }

abbrev ready_db : Database
ready_db = record empty { permit_cases = ready_case ∷ [] }

abbrev site_plan : RegisteredDocument
site_plan = record {
  document_id = "DOC-1";
  document_type = "SITE_PLAN";
  template_name = "site_plan.txt";
  artifact_id = "ART-2";
  sha256_digest = "digest-2";
  document_artifact_id = "ART-3";
}

abbrev built : RegisteredPackage
built = record {
  package_id = "PKG-1";
  package_version = "1.0.0";
  manifest_artifact_id = "ART-1";
  manifest_sha256_digest = "digest-1";
  documents = site_plan ∷ [];
  created_at = 5;
}

abbrev rebuilt : RegisteredPackage
rebuilt = record built {
  package_id = "PKG-2";
  manifest_artifact_id = "ART-4";
  documents = record site_plan { artifact_id = "ART-5"; document_artifact_id = "ART-6" } ∷ [];
}

abbrev sample_request : PersistSubmissionPackageRequest
sample_request = record { request_id = "request-0"; case_id = "case-1" }

abbrev stay : Database → Database
stay db = db

abbrev stored_db : Database
stored_db = stores built sample_request incentives_complete ready_db

stores_it :
    persist_submission_package stay stay built sample_request ready_db ≡ (ok "PKG-1", stored_db)
unfolding persist_submission_package store conflicts clash evidence_rows evidence_row document_rows
    package_of_request find filter latest
stores_it = refl

-- The case has gone on, and points to its package.
moves_it :
    stored_db.permit_cases
    ≡ record ready_case { case_state = document_complete; current_package_id = some "PKG-1" } ∷ []
unfolding stores point_to_package update
moves_it = refl

-- The adapter has no documents.
nothing_known :
    persist_submission_package stay stay (record built { documents = [] }) sample_request ready_db
    ≡ (err Error.lookup_error, ready_db)
unfolding persist_submission_package
nothing_known = refl

-- A package that another attempt for the same request stores meanwhile is not seen: there are two
-- then.
both_stored :
    map
      (λ p. p.package_id)
      (persist_submission_package
        (λ db. stored_db)
        stay
        rebuilt
        sample_request
        ready_db).1.submission_packages
    ≡ "PKG-1" ∷ "PKG-2" ∷ []
unfolding persist_submission_package store conflicts clash evidence_rows evidence_row document_rows
    package_row package_of_request find filter latest stores update
both_stored = refl

fresh : is_some (get_package "PKG-1" ready_db) ≡ false
unfolding find
fresh = refl

unseen : package_of_request sample_request ready_db ≡ none
unfolding package_of_request filter latest
unseen = refl

persist_submission_package-persist_submission_package_example :
    persist_submission_package stay stay rebuilt sample_request stored_db ≡ (ok "PKG-1", stored_db)
persist_submission_package-persist_submission_package_example =
    persist_submission_package-persist_submission_package stay stay built sample_request ready_db
      stay stay rebuilt "PKG-1" stored_db stored_db fresh (λ n. unseen) stores_it (λ e. cc) refl
