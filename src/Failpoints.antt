-- ===== src/Failpoints.antt =====
-- src/sps/failpoints.py: the test-only crash points, as the state of one process.
pub mod Laws
use sps_v.Common.{
  ℕ, ◌+◌, String, Bool, true, false, not, List, [], ◌∷◌, ◌==◌, string_eq, if◌then◌else◌, elem,
}

-- `_enabled()`, `_enabled_keys()`, `_FIRED_KEYS` and `_SEEN_COUNTS`.
pub record Failpoints : Type 0 where
  pub is_enabled : Bool
  pub enabled_keys : List String
  pub fired_keys : List String
  pub seen_counts : String → ℕ

-- Whether `fail_once(key)` raises `FailpointFired`, and the state that it leaves.
unfoldable pub fail_once : String → Failpoints → Bool × Failpoints
fail_once key s =
    if not s.is_enabled
    then (false, s)
    else if not (elem key s.enabled_keys)
    then (false, s)
    else let seen = record s {
      seen_counts = λ k. if k == key then s.seen_counts k + 1 else s.seen_counts k;
    } in
      if elem key s.fired_keys
      then (false, seen)
      else (true, record seen { fired_keys = key ∷ s.fired_keys })
