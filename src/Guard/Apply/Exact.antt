-- ===== src/Guard/Apply/Exact.antt =====
-- What the guard decides at a case that is there: it applies the transition exactly when the case is
-- in the state that the request starts from and the request is permitted.
use sps_v.Common.{◌≡◌, some, arith, true, ok, Bool-cases, inl, inr}
use sps_v.Contracts.CaseState.{state_beq, state_beq_iff}
use sps_v.Contracts.Transition.{StateTransitionRequest, StateTransitionResult, is_applied}
use sps_v.Assertions.{Registry}
use sps_v.Db.{Database, PermitCase}
use sps_v.Guard.Branch.{Branch, branch}
use sps_v.Guard.Branch.Edges.{Moves, branch-Edge, branch_of_Edge}
use sps_v.Guard.Gates.{apply_at}
use sps_v.Guard.Gates.Exact.{run_branch_sound, run_branch_complete}
use sps_v.Guard.Spec.{Needs, Permits}
use sps_v.Guard.Apply.{requested_at, get_case, evaluate}

Moves-Needs :
    (req : StateTransitionRequest) (db : Database) (b : Branch)
    → Needs req (requested_at req) db b
    → Moves b
Moves-Needs req db Branch.hold_to_submitted n = n
Moves-Needs req db Branch.unknown n = n
Moves-Needs req db _ n = tt

module _ (registry : Registry) (req : StateTransitionRequest) (db : Database)
    (case : PermitCase) where
  -- A request that is decided as applied found its case in the state that it starts from, and the
  -- tables permit it.
  pub evaluate_sound :
      (r : StateTransitionResult)
      → get_case req db ≡ some case
      → evaluate registry req db ≡ ok r
      → is_applied r ≡ true
      → (case.case_state ≡ req.from_state) × Permits req (requested_at req) db
  unfolding evaluate
  evaluate_sound r found e h = elim (Bool-cases (state_beq case.case_state req.from_state)) [
    | inl same ↦
        let b = branch req.from_state req.to_state in
        let n = run_branch_sound registry req (requested_at req) db b r (ground arith) h in
        (
          (state_beq_iff _ _).0 same,
          (b, branch-Edge req.from_state req.to_state (Moves-Needs req db b n), n),
        )
    | inr other ↦ absurd (ground arith)
  ]

  -- A request whose case is there, in the state that the request starts from, and that the tables
  -- permit, is decided as applied at the time of the request.
  pub evaluate_complete :
      get_case req db ≡ some case
      → case.case_state ≡ req.from_state
      → Permits req (requested_at req) db
      → evaluate registry req db ≡ ok (apply_at (requested_at req))
  unfolding evaluate
  evaluate_complete found same (b, edge, n) = ground (
    arith,
    branch_of_Edge edge,
    run_branch_complete registry req (requested_at req) db b n,
    state_beq_iff case.case_state req.from_state,
  )
