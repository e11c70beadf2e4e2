-- ===== src/Releases/Blockers/Examples.antt =====
-- The blockers of a sample database, before and after a review decision.
use sps_v.Common.{◌<◌, refl}
use sps_v.Reviews.Decisions.Samples.{sample_db, sample_request, sample_time, first, first_signals}
use sps_v.Releases.Blockers.{Sorts, build_release_blockers_response}
use sps_v.Releases.Blockers.Open.{KeepsLength, create_review_decision-blocks}

abbrev unsorted : Sorts
unsorted = record { contradictions = λ xs. xs; dissents = λ xs. xs }

unsorted-KeepsLength : KeepsLength unsorted
unsorted-KeepsLength = record { contradictions = λ xs. refl; dissents = λ xs. refl }

create_review_decision-blocks_example :
    0 < (build_release_blockers_response unsorted 5 first.db).blocker_count
create_review_decision-blocks_example =
    create_review_decision-blocks unsorted unsorted-KeepsLength "event-1" sample_time 5
      sample_request sample_db "wall:" first_signals refl refl
