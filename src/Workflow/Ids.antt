-- ===== src/Workflow/Ids.antt =====
-- The identifiers of src/sps/workflows/permit_case/workflow.py, ids.py and contracts.py.
pub mod Start
mod Examples
use Prim.Native.String.{◌++◌, len, slice}
use Prim.Native.Nat.{ℕ, zero, suc, ◌/◌, ◌%◌}
use text.Mathlib.Text.{starts_with}
use sps_v.Common.{
  String, ◌≡◌, refl, if◌then◌else◌, ltb, ◌==◌, nat_eq, string_eq, Result, ok, err, Error,
}

digit : ℕ → String
digit n =
    if n == 0
    then "0"
    else if n == 1
    then "1"
    else if n == 2
    then "2"
    else if n == 3
    then "3"
    else if n == 4
    then "4"
    else if n == 5
    then "5"
    else if n == 6
    then "6"
    else if n == 7
    then "7"
    else if n == 8
    then "8"
    else "9"

-- A number has at most as many digits as one more than it says.
digits : ℕ → ℕ → String
unfolding digit
digits zero n = ""
digits (suc fuel) n =
    let rest = digits fuel (n / 10) in if ltb n 10 then digit n else rest ++ digit (n % 10)

-- A number in an f-string.
unfoldable pub decimal : ℕ → String
unfolding digits
decimal n = digits (suc n) n

three_digits : decimal 120 ≡ "120"
unfolding decimal
three_digits = refl

module _ (workflow_id run_id : String) where
  -- `_transition_request_id` and `_activity_request_id`
  unfoldable pub transition_request_id : String → ℕ → String
  unfolding decimal
  transition_request_id transition attempt =
      workflow_id ++ "/" ++ run_id ++ "/" ++ transition ++ "/attempt-" ++ decimal attempt

  unfoldable pub activity_request_id : String → ℕ → String
  unfolding decimal
  activity_request_id activity_name attempt =
      workflow_id ++ "/" ++ run_id ++ "/" ++ activity_name ++ "/attempt-" ++ decimal attempt

  unfoldable pub submission_attempt_id_for_workflow : ℕ → String
  unfolding decimal
  submission_attempt_id_for_workflow attempt =
      workflow_id ++ "/" ++ run_id ++ "/submission_attempt/attempt-" ++ decimal attempt

unfoldable pub submission_attempt_idempotency_key : String → ℕ → String
unfolding decimal
submission_attempt_idempotency_key case_id attempt =
    "submit/" ++ case_id ++ "/attempt-" ++ decimal attempt

-- `_case_id_from_workflow_id`; the first slash of such a text ends its prefix of twelve characters.
unfoldable pub case_id_from_workflow_id : String → Result String
case_id_from_workflow_id workflow_id =
    if starts_with workflow_id "permit-case/"
    then ok (slice workflow_id 12 (len workflow_id))
    else err Error.runtime_error
