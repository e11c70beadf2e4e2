-- ===== src/Cases/Examples.antt =====
-- A first case in an empty database.
use sps_v.Common.{◌≡◌, refl, true, [], ◌∷◌, find, ok}
use sps_v.Db.{Database}
use sps_v.Db.Samples.{empty}
use sps_v.Cases.{new_case, ensure_permit_case_exists}

abbrev stay : Database → Database
stay db = db

abbrev first_db : Database
first_db = record empty { permit_cases = new_case "case-1" ∷ [] }

creation_runs : ensure_permit_case_exists stay "case-1" empty ≡ (ok true, first_db)
unfolding ensure_permit_case_exists find
creation_runs = refl
