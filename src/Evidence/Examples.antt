-- ===== src/Evidence/Examples.antt =====
-- A jurisdiction of a case, and one whose identifier belongs to another case.
use sps_v.Common.{String, ◌≡◌, refl, some, List, [], ◌∷◌, find, filter, ok, err, Error}
use sps_v.Contracts.CaseState.{intake_complete, jurisdiction_complete}
use sps_v.Contracts.Samples.{approval_request}
use sps_v.Contracts.Transition.{StateTransitionRequest}
use sps_v.Db.{Database, PermitCase, JurisdictionResolution}
use sps_v.Db.Samples.{empty, sample_case}
use sps_v.Guard.Gates.{apply_at}
use sps_v.Guard.Apply.{evaluate, get_case}
use sps_v.Evidence.{
  Reread, get_evidence, staged, conflicts, reread, commit_all, persist_all,
  jurisdiction_resolutions, PersistEvidenceRequest, persist_jurisdiction_resolutions,
}
use sps_v.Evidence.Gates.{persist_jurisdiction_resolutions-evaluate}

abbrev intake_case : PermitCase
intake_case = record sample_case { case_state = intake_complete }

abbrev intake_db : Database
intake_db = record empty { permit_cases = intake_case ∷ [] }

abbrev city : JurisdictionResolution
city = record {
  jurisdiction_resolution_id = "JUR-1";
  case_id = "case-1";
  support_level = "FULLY_SUPPORTED";
  evidence_ids = [];
}

abbrev city_db : Database
city_db = record intake_db { jurisdiction_resolutions = city ∷ [] }

abbrev sample_request : PersistEvidenceRequest
sample_request = record { request_id = "request-0"; case_id = "case-1" }

abbrev advance_request : StateTransitionRequest
advance_request = record approval_request {
  from_state = intake_complete;
  to_state = jurisdiction_complete;
}

abbrev stay : Database → Database
stay db = db

abbrev sample_ids : List String
sample_ids = "JUR-1" ∷ []

stores :
    persist_jurisdiction_resolutions stay (city ∷ []) sample_request intake_db
    ≡ (ok ("JUR-1" ∷ []), city_db)
unfolding persist_all commit_all conflicts staged get_evidence find filter
stores = refl

-- The adapter has nothing on the case.
nothing_known :
    persist_jurisdiction_resolutions stay [] sample_request intake_db
    ≡ (err Error.lookup_error, intake_db)
unfolding persist_all
nothing_known = refl

-- Two records with one identifier are both staged, and the commit fails.
twice :
    persist_jurisdiction_resolutions stay (city ∷ city ∷ []) sample_request intake_db
    ≡ (err Error.runtime_error, intake_db)
unfolding persist_all commit_all conflicts staged reread get_evidence find filter
twice = refl

found : get_case advance_request intake_db ≡ some intake_case
unfolding get_case find
found = refl

free :
    (row : JurisdictionResolution)
    → get_evidence jurisdiction_resolutions "JUR-1" intake_db ≡ some row
    → row.case_id ≡ "case-1"
unfolding get_evidence find
free row e = absurd (cc)

persist_jurisdiction_resolutions-evaluate_example :
    evaluate [] advance_request city_db ≡ ok (apply_at 7)
persist_jurisdiction_resolutions-evaluate_example =
    persist_jurisdiction_resolutions-evaluate [] (city ∷ []) sample_request advance_request
      intake_case intake_db city_db ("JUR-1" ∷ []) refl refl refl found refl
      (record { own = (refl, tt); apart = (free, tt) }) stores

-- The row under the identifier is another case's: the activity returns it all the same, and the case
-- has no jurisdiction.
abbrev other_city : JurisdictionResolution
other_city = record city { case_id = "case-2" }

abbrev other_db : Database
other_db = record intake_db { jurisdiction_resolutions = other_city ∷ [] }

collides :
    persist_jurisdiction_resolutions stay (city ∷ []) sample_request other_db
    ≡ (ok ("JUR-1" ∷ []), other_db)
unfolding persist_all commit_all conflicts staged get_evidence find filter
collides = refl

none_stored : reread jurisdiction_resolutions (Reread.of_case "case-1") (city ∷ []) other_db ≡ []
unfolding reread filter
none_stored = refl
