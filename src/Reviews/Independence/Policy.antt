-- ===== src/Reviews/Independence/Policy.antt =====
-- The independence policy in closed form, over the reviews of the last 90 days.
use sps_v.Common.{
  ℕ, ◌+◌, ◌-◌, ◌*◌, ◌≤◌, ◌<◌, String, ◌≡◌, ◌≢◌, ◌↔◌, sym, ◌∙◌, string_eq, arith, eq_iff, count,
  count_mono, ok,
}
use sps_v.Common.Time.{days}
use sps_v.Contracts.Enums.{ReviewerIndependenceStatus}
use sps_v.Db.{Database}
use sps_v.Reviews.Independence.{
  in_window, in_pair, compute_metrics, independence_status, BlockedReason, cleared, refused, judge,
  check_reviewer_independence,
}

-- The reviews of the window that ends at `now`, and those of one pair.
abbrev pub recent : Database → ℕ → ℕ
recent db now = count (in_window (now - days 90)) db.review_decisions

abbrev pub recent_pair : Database → String → String → ℕ → ℕ
recent_pair db reviewer author now =
    count (in_pair (now - days 90) reviewer author) db.review_decisions

recent_pair-le-recent :
    (db : Database) (r a : String) (now : ℕ) → recent_pair db r a now ≤ recent db now
recent_pair-le-recent db r a now =
    count_mono (in_pair (now - days 90) r a) (in_window (now - days 90)) (λ x h. ground arith)
      db.review_decisions

-- The metrics are available from 90 days after `datetime.min` on, and are never invalid.
pub compute_metrics_lem :
    (db : Database) (r a : String) (now : ℕ)
    → days 90 ≤ now
    → compute_metrics db r a now
      ≡ ok (record {
        window_start = now - days 90;
        window_end = now;
        total_reviews = recent db now + 1;
        pair_total_reviews = recent_pair db r a now + 1;
        repeated_pair_reviews = recent_pair db r a now;
      })
unfolding compute_metrics
compute_metrics_lem db r a now h = ground (arith, recent_pair-le-recent db r a now)

pub check_lem :
    (db : Database) (r a : String) (now : ℕ)
    → days 90 ≤ now
    → r ≢ a
    → check_reviewer_independence db r a now
      ≡ judge (independence_status (recent_pair db r a now) (recent db now + 1))
unfolding check_reviewer_independence
check_lem db r a now h ne = ground (arith, eq_iff r a, compute_metrics_lem db r a now h)

judge_sound :
    (p t : ℕ) (s : ReviewerIndependenceStatus)
    → judge (independence_status p t) ≡ cleared s
    → 2 * p ≤ t
unfolding independence_status
judge_sound p t s h = ground arith

pub judge_complete :
    (p t : ℕ) → 2 * p ≤ t → judge (independence_status p t) ≡ cleared (independence_status p t)
unfolding independence_status
judge_complete p t h = ground arith

-- Above half, the pair is refused.
pub judge_blocked :
    (p t : ℕ)
    → t < 2 * p
    → judge (independence_status p t) ≡ refused BlockedReason.independence_threshold_blocked
unfolding independence_status
judge_blocked p t h = ground arith

check_self :
    (db : Database) (r : String) (now : ℕ)
    → check_reviewer_independence db r r now ≡ refused BlockedReason.self_approval
unfolding check_reviewer_independence
check_self db r now = ground (arith, eq_iff r r)

-- From 90 days after `datetime.min` on, a reviewer is cleared exactly if the author is someone else
-- and twice the stored reviews of the pair in the window are at most all stored reviews in the window
-- and the new one, which the code counts on this side only.
pub cleared_iff :
    (db : Database) (r a : String) (now : ℕ)
    → days 90 ≤ now
    → ((s : ReviewerIndependenceStatus) × (check_reviewer_independence db r a now ≡ cleared s))
      ↔ ((r ≢ a) × (2 * recent_pair db r a now ≤ recent db now + 1))
cleared_iff db r a now h = (
  λ c.
      let ne : r ≢ a = λ e. cc (rw e at c.1, check_self db a now) in
      (ne, judge_sound _ _ c.0 (sym (check_lem db r a now h ne) ∙ c.1)),
  λ c. (
    independence_status (recent_pair db r a now) (recent db now + 1),
    check_lem db r a now h c.0 ∙ judge_complete _ _ c.1,
  ),
)

-- Nobody is cleared on their own work.
pub check-ne :
    (db : Database) (r a : String) (now : ℕ) (s : ReviewerIndependenceStatus)
    → check_reviewer_independence db r a now ≡ cleared s
    → r ≢ a
check-ne db r a now s h e = cc (rw e at h, check_self db a now)
