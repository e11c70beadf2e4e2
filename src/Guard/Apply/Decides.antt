-- ===== src/Guard/Apply/Decides.antt =====
-- An attempt that goes through.
use sps_v.Common.{◌≡◌, refl, ◌∙◌, none, some, false, ok}
use sps_v.Contracts.Transition.{StateTransitionRequest}
use sps_v.Db.{Database, PermitCase}
use sps_v.Failpoints.{fail_once}
use sps_v.Guard.Gates.{apply_at}
use sps_v.Guard.Spec.{Permits}
use sps_v.Guard.Apply.{
  World, Env, requested_at, get_ledger, get_case, violates, writes, after_commit, attempt,
}
use sps_v.Guard.Apply.Exact.{evaluate_complete}
use sps_v.Guard.Apply.Steps.{attempt_new, locked_ok}

-- A request that is new and permitted is applied and committed, where no failpoint is armed.
pub attempt_applies :
    (env : Env) (others : Database → Database) (req : StateTransitionRequest) (w : World)
    (case : PermitCase)
    → get_ledger req w.db ≡ none
    → get_case req (others w.db) ≡ some case
    → case.case_state ≡ req.from_state
    → Permits req (requested_at req) (others w.db)
    → violates env req (others w.db) ≡ false
    → w.failpoints.is_enabled ≡ false
    → attempt env others req w ≡ (
      ok (apply_at (requested_at req)),
      record w { db = writes env req (apply_at (requested_at req)) (others w.db) },
    )
unfolding after_commit fail_once
attempt_applies env others req w case new found same permits free quiet =
    attempt_new env req w others new
    ∙ (locked_ok env req (record w { db = others w.db }) (apply_at (requested_at req))
          (evaluate_complete env.registry req (others w.db) case found same permits) free
        ∙ rw quiet refl)
