-- ===== src/Reviews/Independence.antt =====
-- The reviewer independence policy of src/sps/api/routes/reviews.py. The rate is a float there; the
-- model compares the two counts by cross multiplication, which is what the float comparison decides
-- as long as the counts stay below 2 ^ 48.
pub mod Policy
use sps_v.Common.{
  ℕ, suc, ◌+◌, ◌-◌, ◌*◌, String, Bool, false, ◌&&◌, ◌||◌, Option, none, some, List, [], ◌∷◌, ◌==◌,
  string_eq, ltb, leb, if◌then◌else◌, count, Result, ok, err, Error, ◌>>=◌,
}
use sps_v.Common.Time.{days}
use sps_v.Contracts.Enums.{ReviewerIndependenceStatus}
use sps_v.Db.{Database, ReviewDecision}

-- `ReviewerIndependenceMetrics`, with the rate as its two parts.
pub record ReviewerIndependenceMetrics : Type 0 where
  pub window_start : ℕ
  pub window_end : ℕ
  pub total_reviews : ℕ
  pub pair_total_reviews : ℕ
  pub repeated_pair_reviews : ℕ

-- `ReviewDecision.subject_author_id == subject_author_id`, false at NULL.
abbrev pub is_author : Option String → String → Bool
is_author none author = false
is_author (some a) author = a == author

abbrev pub in_window : ℕ → ReviewDecision → Bool
in_window window_start r = leb window_start r.decision_at

abbrev pub in_pair : ℕ → String → String → ReviewDecision → Bool
in_pair window_start reviewer author r =
    in_window window_start r && (r.reviewer_id == reviewer && is_author r.subject_author_id author)

-- `_compute_reviewer_independence_metrics`
unfoldable pub compute_metrics : Database → String → String → ℕ → Result ReviewerIndependenceMetrics
compute_metrics db reviewer author decision_at =
    if ltb decision_at (days 90)
    then err Error.overflow_error
    else let window_start = decision_at - days 90 in
      let total = count (in_window window_start) db.review_decisions + 1 in
      let pair = count (in_pair window_start reviewer author) db.review_decisions + 1 in
      if leb total 0 || ltb total pair
      then err Error.runtime_error
      else ok (record {
        window_start = window_start;
        window_end = decision_at;
        total_reviews = total;
        pair_total_reviews = pair;
        repeated_pair_reviews = pair - 1;
      })

-- `_independence_status_for_rate` at the rate `repeated / total`.
unfoldable pub independence_status : ℕ → ℕ → ReviewerIndependenceStatus
independence_status repeated total =
    if ltb (50 * total) (100 * repeated)
    then ReviewerIndependenceStatus.blocked
    else if ltb (35 * total) (100 * repeated)
    then ReviewerIndependenceStatus.escalation_required
    else if ltb (25 * total) (100 * repeated)
    then ReviewerIndependenceStatus.warning
    else ReviewerIndependenceStatus.pass

-- The `blocked_reason` of a 403.
pub data BlockedReason : Type 0 where
  self_approval metrics_unavailable independence_threshold_blocked : BlockedReason

-- What the check returns, or the reason for which it raises.
pub data Verdict : Type 0 where
  cleared : ReviewerIndependenceStatus → Verdict
  refused : BlockedReason → Verdict

abbrev pub judge : ReviewerIndependenceStatus → Verdict
judge ReviewerIndependenceStatus.blocked = refused BlockedReason.independence_threshold_blocked
judge status = cleared status

-- `_check_reviewer_independence`
unfoldable pub check_reviewer_independence : Database → String → String → ℕ → Verdict
check_reviewer_independence db reviewer author decision_at =
    if reviewer == author
    then refused BlockedReason.self_approval
    else elim (compute_metrics db reviewer author decision_at) [
      | err e ↦ refused BlockedReason.metrics_unavailable
      | ok m ↦ judge (independence_status m.repeated_pair_reviews m.total_reviews)
    ]
