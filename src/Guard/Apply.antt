-- ===== src/Guard/Apply.antt =====
-- The transaction of `apply_state_transition`: the ledger lookup, the locked case, the staged
-- writes, the commit and what follows it.
pub mod Decides
pub mod Effects
mod Examples
pub mod Exact
pub mod History
pub mod Idempotency
pub mod Leads
pub mod Steps
use Prim.Native.String.{◌++◌}
use mathlib.Core.List.{◌++◌ as ◌++ᴸ◌}
use sps_v.Common.{
  ℕ, String, Bool, true, false, ◌||◌, Option, none, some, List, [], ◌∷◌, ◌==◌, string_eq,
  if◌then◌else◌, is_some, find, update, Result, ok, err, Error,
}
use sps_v.Common.Time.{to_utc}
use sps_v.Contracts.CaseState.{state_eq}
use sps_v.Contracts.Enums.{EventType, DenialReason}
use sps_v.Contracts.Transition.{
  StateTransitionRequest, StateTransitionResult, applied, denied, is_applied, event_type,
}
use sps_v.Assertions.{Registry}
use sps_v.Failpoints.{Failpoints, fail_once}
use sps_v.Db.{Database, PermitCase, CaseTransitionLedger, AuditEvent, AuditAction, AuditPayload}
use sps_v.Guard.Branch.{branch}
use sps_v.Guard.Gates.{apply_at, deny, run_branch}

-- The database and the process that runs the activity.
pub record World : Type 0 where
  pub db : Database
  pub failpoints : Failpoints

-- What the activity takes from outside: the registry, and the UUID of the audit event.
pub record Env : Type 0 where
  pub registry : Registry
  pub audit_event_id : String

abbrev pub requested_at : StateTransitionRequest → ℕ
requested_at req = to_utc req.requested_at

unfoldable pub get_ledger : StateTransitionRequest → Database → Option CaseTransitionLedger
get_ledger req db = find (λ l. l.transition_id == req.request_id) db.case_transition_ledger

unfoldable pub get_case : StateTransitionRequest → Database → Option PermitCase
get_case req db = find (λ c. c.case_id == req.case_id) db.permit_cases

-- The result read back from a ledger row.
abbrev pub persisted : StateTransitionRequest → CaseTransitionLedger → StateTransitionResult
persisted req row = elim row.payload [
  | none ↦ deny (requested_at req) row.event_type DenialReason.ledger_payload_missing none none
  | some result ↦ result
]

-- From the locked row to the result; an exception leaves nothing behind.
unfoldable pub evaluate :
    Registry → StateTransitionRequest → Database → Result StateTransitionResult
evaluate registry req db = elim (get_case req db) [
  | none ↦ err Error.lookup_error
  | some case ↦
      if case.case_state == req.from_state
      then run_branch registry req (requested_at req) db (branch req.from_state req.to_state)
      else ok (
          deny (requested_at req) EventType.state_transition_denied DenialReason.from_state_mismatch
            none none)
]

-- The denial's own columns, which an applied result lacks (`getattr(..., None)`).
abbrev denial_reason : StateTransitionResult → Option DenialReason
denial_reason (applied a) = none
denial_reason (denied d) = some d.denial_reason

abbrev guard_assertion : StateTransitionResult → Option String
guard_assertion (applied a) = none
guard_assertion (denied d) = d.guard_assertion_id

-- The row that `emit_audit_event` stages.
pub audit_row : Env → StateTransitionRequest → StateTransitionResult → AuditEvent
audit_row env req result = record {
  event_id = env.audit_event_id;
  correlation_id = some req.correlation_id;
  request_id = some req.request_id;
  actor_type = req.actor_type;
  actor_id = req.actor_id;
  action =
      if is_applied result then AuditAction.transition_applied else AuditAction.transition_denied;
  payload = some (
      AuditPayload.transition req.case_id req.from_state req.to_state (is_applied result)
        (event_type result) (denial_reason result) (guard_assertion result));
  occurred_at = requested_at req;
}

pub ledger_row : StateTransitionRequest → StateTransitionResult → CaseTransitionLedger
ledger_row req result = record {
  transition_id = req.request_id;
  case_id = req.case_id;
  event_type = event_type result;
  from_state = some req.from_state;
  to_state = some req.to_state;
  actor_type = req.actor_type;
  actor_id = req.actor_id;
  correlation_id = some req.correlation_id;
  occurred_at = requested_at req;
  payload = some result;
}

-- `case.case_state = req.to_state.value`, on an applied result.
pub write_case : StateTransitionRequest → StateTransitionResult → List PermitCase → List PermitCase
write_case req result cases =
    if is_applied result
    then update (λ c. c.case_id == req.case_id) (λ c. record c { case_state = req.to_state }) cases
    else cases

-- All that one transaction writes.
pub writes : Env → StateTransitionRequest → StateTransitionResult → Database → Database
unfolding write_case ledger_row audit_row
writes env req result db = record db {
  permit_cases = write_case req result db.permit_cases;
  audit_events = db.audit_events ++ᴸ audit_row env req result ∷ [];
  case_transition_ledger = db.case_transition_ledger ++ᴸ ledger_row req result ∷ [];
}

-- A primary key that is taken makes the commit an `IntegrityError`.
unfoldable pub violates : Env → StateTransitionRequest → Database → Bool
violates env req db =
    is_some (get_ledger req db)
    || is_some (find (λ e. e.event_id == env.audit_event_id) db.audit_events)

-- After the commit: the failpoint, and the return.
pub after_commit :
    StateTransitionRequest → StateTransitionResult → World → Result StateTransitionResult × World
after_commit req result w =
    let (fired, failpoints) =
      fail_once ("apply_state_transition.after_commit/" ++ req.request_id) w.failpoints in
    (if fired then err Error.failpoint_fired else ok result, record w { failpoints = failpoints })

-- After an `IntegrityError`: a new session reads the row that won.
pub reload : StateTransitionRequest → World → Result StateTransitionResult × World
reload req w = elim (get_ledger req w.db) [
  | none ↦ (err Error.runtime_error, w)
  | some row ↦ (ok (persisted req row), w)
]

-- From the row lock on the case to the end.
pub locked : Env → StateTransitionRequest → World → Result StateTransitionResult × World
locked env req w = elim (evaluate env.registry req w.db) [
  | err e ↦ (err e, w)
  | ok result ↦
      if violates env req w.db
      then reload req w
      else after_commit req result (record w { db = writes env req result w.db })
]

-- One attempt. `others` is what other transactions commit between the ledger lookup and the lock
-- on the case row, which this one may wait for; from there the lock holds them off the case.
pub attempt :
    Env
    → (Database → Database)
    → StateTransitionRequest
    → World
    → Result StateTransitionResult × World
attempt env others req w = elim (get_ledger req w.db) [
  | some row ↦ after_commit req (persisted req row) w
  | none ↦ locked env req (record w { db = others w.db })
]

-- The activity with no other transaction in between.
pub apply_state_transition :
    Env → StateTransitionRequest → World → Result StateTransitionResult × World
apply_state_transition env = attempt env (λ db. db)
