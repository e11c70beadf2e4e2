-- ===== src/Failpoints/Laws.antt =====
-- A failpoint crashes its process at most once.
use sps_v.Common.{String, ◌≡◌, false, arith, eq_iff, elem}
use sps_v.Failpoints.{Failpoints, fail_once}

-- After any call of `fail_once` on a key, the next call on that key does not raise.
pub fail_once-fail_once :
    (key : String) (s : Failpoints) → (fail_once key (fail_once key s).1).0 ≡ false
unfolding fail_once elem
fail_once-fail_once key s = ground (arith, eq_iff key key)
