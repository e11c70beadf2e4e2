-- ===== src/Evidence.antt =====
-- The activities of src/sps/workflows/permit_case/activities_impl.py that store what the adapters
-- find out about a case: its jurisdictions, requirements, compliance and incentives. They differ in
-- their rows and in what they read after a failed commit: `persist_all` is their common body, and an
-- `EvidenceTable` is what each brings. The adapters' records are an argument, as rows before the
-- time zones are filled in.
pub mod Batch
pub mod Gates
mod Examples
use mathlib.Core.List.{◌++◌ as ◌++ᴸ◌}
use sps_v.Common.{
  String, Bool, true, false, not, ◌||◌, ◌≡◌, refl, Option, none, some, List, [], ◌∷◌, map, ◌==◌,
  string_eq, if◌then◌else◌, is_some, find, filter, elem, Result, ok, err, Error,
}
use sps_v.Common.Time.{Datetime, aware, to_utc}
use sps_v.Db.{
  Database, JurisdictionResolution, RequirementSet, ComplianceEvaluation, IncentiveAssessment,
}
use sps_v.Records.{has_case}

-- A table of evidence on cases; writing it leaves the cases alone.
pub record EvidenceTable (Row : Type 0) : Type 0 where
  pub rows : Database → List Row
  pub set_rows : List Row → Database → Database
  pub key : Row → String
  pub case_of : Row → String
  pub rows-set_rows : (xs : List Row) (db : Database) → rows (set_rows xs db) ≡ xs
  pub set_rows-rows : (db : Database) → set_rows (rows db) db ≡ db
  pub cases-set_rows :
      (xs : List Row) (db : Database) → (set_rows xs db).permit_cases ≡ db.permit_cases

-- The rows that are read after an `IntegrityError`: those of the case, or those of the records.
pub data Reread : Type 0 where
  of_case : String → Reread
  of_records : Reread

module _ {Row : Type 0} (table : EvidenceTable Row) where
  pub get_evidence : String → Database → Option Row
  get_evidence id db = find (λ r. table.key r == id) (table.rows db)

  abbrev pub is_new : Database → Row → Bool
  is_new db r = not (is_some (get_evidence (table.key r) db))

  -- The loop over the records: what `session.add` collects. The session does not flush before a
  -- `session.get`, so of two records with one identifier both are collected.
  pub staged : List Row → Database → List Row
  staged records db = filter (is_new db) records

  -- The constraints that the commit checks: primary keys, also among the new rows, and the cases.
  pub conflicts : List Row → Database → Bool
  conflicts [] db = false
  conflicts (r ∷ rest) db =
      is_some (get_evidence (table.key r) db)
      || (not (has_case (table.case_of r) db)
          || (is_some (find (λ s. table.key s == table.key r) rest) || conflicts rest db))

  pub reread : Reread → List Row → Database → List String
  reread (Reread.of_case id) records db =
      map table.key (filter (λ r. table.case_of r == id) (table.rows db))
  reread Reread.of_records records db =
      map table.key (filter (λ r. elem (table.key r) (map table.key records)) (table.rows db))

  -- The end of an activity whose commit has failed.
  abbrev pub reread_result : List String → Result (List String)
  reread_result [] = err Error.runtime_error
  reread_result (id ∷ ids) = ok (id ∷ ids)

  -- The commit of the staged rows, of all or of none.
  pub commit_all : Reread → List Row → List Row → Database → Result (List String) × Database
  commit_all how records new db =
      if conflicts new db
      then (reread_result (reread how records db), db)
      else (ok (map table.key records), table.set_rows (table.rows db ++ᴸ new) db)

  -- The activity; `others` is what other transactions commit between its reads and its commit.
  pub persist_all :
      Reread → (Database → Database) → List Row → Database → Result (List String) × Database
  persist_all how others [] db = (err Error.lookup_error, db)
  persist_all how others (r ∷ rs) db = commit_all how (r ∷ rs) (staged (r ∷ rs) db) (others db)

-- `t.replace(tzinfo=dt.UTC)` where there is no zone.
abbrev with_utc : Datetime → Datetime
with_utc t = aware (to_utc t)

abbrev pub jurisdiction_resolutions : EvidenceTable JurisdictionResolution
jurisdiction_resolutions = record {
  rows = λ db. db.jurisdiction_resolutions;
  set_rows = λ xs db. record db { jurisdiction_resolutions = xs };
  key = λ r. r.jurisdiction_resolution_id;
  case_of = λ r. r.case_id;
  rows-set_rows = λ xs db. refl;
  set_rows-rows = λ db. refl;
  cases-set_rows = λ xs db. refl;
}

abbrev pub requirement_sets : EvidenceTable RequirementSet
requirement_sets = record {
  rows = λ db. db.requirement_sets;
  set_rows = λ xs db. record db { requirement_sets = xs };
  key = λ r. r.requirement_set_id;
  case_of = λ r. r.case_id;
  rows-set_rows = λ xs db. refl;
  set_rows-rows = λ db. refl;
  cases-set_rows = λ xs db. refl;
}

abbrev pub compliance_evaluations : EvidenceTable ComplianceEvaluation
compliance_evaluations = record {
  rows = λ db. db.compliance_evaluations;
  set_rows = λ xs db. record db { compliance_evaluations = xs };
  key = λ r. r.compliance_evaluation_id;
  case_of = λ r. r.case_id;
  rows-set_rows = λ xs db. refl;
  set_rows-rows = λ db. refl;
  cases-set_rows = λ xs db. refl;
}

abbrev pub incentive_assessments : EvidenceTable IncentiveAssessment
incentive_assessments = record {
  rows = λ db. db.incentive_assessments;
  set_rows = λ xs db. record db { incentive_assessments = xs };
  key = λ r. r.incentive_assessment_id;
  case_of = λ r. r.case_id;
  rows-set_rows = λ xs db. refl;
  set_rows-rows = λ db. refl;
  cases-set_rows = λ xs db. refl;
}

abbrev pub requirement_set : RequirementSet → RequirementSet
requirement_set r = record r { freshness_expires_at = with_utc r.freshness_expires_at }

abbrev pub compliance_evaluation : ComplianceEvaluation → ComplianceEvaluation
compliance_evaluation e = record e { evaluated_at = with_utc e.evaluated_at }

abbrev pub incentive_assessment : IncentiveAssessment → IncentiveAssessment
incentive_assessment a = record a { assessed_at = with_utc a.assessed_at }

-- The request: its identifier, which only the log shows, and the case.
pub record PersistEvidenceRequest : Type 0 where
  pub request_id : String
  pub case_id : String

abbrev pub EvidenceActivity : Type 0 → Type 0
EvidenceActivity Row =
    (Database → Database)
    → List Row
    → PersistEvidenceRequest
    → Database
    → Result (List String) × Database

abbrev pub persist_jurisdiction_resolutions : EvidenceActivity JurisdictionResolution
persist_jurisdiction_resolutions others records req =
    persist_all jurisdiction_resolutions (Reread.of_case req.case_id) others records

abbrev pub persist_requirement_sets : EvidenceActivity RequirementSet
persist_requirement_sets others records req =
    persist_all requirement_sets (Reread.of_case req.case_id) others (map requirement_set records)

abbrev pub persist_compliance_evaluation : EvidenceActivity ComplianceEvaluation
persist_compliance_evaluation others records req =
    persist_all compliance_evaluations Reread.of_records others (map compliance_evaluation records)

abbrev pub persist_incentive_assessment : EvidenceActivity IncentiveAssessment
persist_incentive_assessment others records req =
    persist_all incentive_assessments Reread.of_records others (map incentive_assessment records)
