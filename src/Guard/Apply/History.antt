-- ===== src/Guard/Apply/History.antt =====
-- The ledger explains the state of every case: read in order, the applied rows of a case form a path
-- of edges from its first state to its present one.
use sps_v.Common.{
  String, ◌≡◌, ◌≢◌, refl, sym, ◌∙◌, ap, subst, Bool, true, false, ◌&&◌, none, some, List, [], ◌∷◌,
  ◌++◌, ◌==◌, string_eq, str_refl, arith, ok, Bool-cases, inl, inr, eq_iff, find,
}
use sps_v.Contracts.CaseState.{CaseState}
use sps_v.Contracts.Transition.{StateTransitionRequest, StateTransitionResult, is_applied}
use sps_v.Db.{Database, PermitCase, CaseTransitionLedger}
use sps_v.Guard.Branch.{Branch}
use sps_v.Guard.Spec.{Edge}
use sps_v.Guard.Apply.{
  apply_state_transition, World, Env, get_case, evaluate, ledger_row, writes, attempt,
}
use sps_v.Guard.Apply.Exact.{evaluate_sound}
use sps_v.Guard.Apply.Effects.{get_case-writes, find-writes_ne}
use sps_v.Guard.Apply.Steps.{nothing, theirs, ours, attempt-Leaves}

-- The row records that the case moved.
abbrev pub moves : String → CaseTransitionLedger → Bool
moves id row = row.case_id == id && elim row.payload [ none ↦ false | some r ↦ is_applied r ]

-- A reading of the ledger for one case, from one state to another.
pub data History (id : String) : CaseState → List CaseTransitionLedger → CaseState → Type 0 where
  here : {s : CaseState} → History id s [] s
  skip :
      {s t : CaseState} {row : CaseTransitionLedger} {rest : List CaseTransitionLedger}
      → moves id row ≡ false
      → History id s rest t
      → History id s (row ∷ rest) t
  move :
      {s t u : CaseState} {b : Branch} {row : CaseTransitionLedger}
      {rest : List CaseTransitionLedger}
      → moves id row ≡ true
      → row.from_state ≡ some s
      → row.to_state ≡ some u
      → Edge s u b
      → History id u rest t
      → History id s (row ∷ rest) t

module _ {id : String} (row : CaseTransitionLedger) where
  append_skip :
      {s t : CaseState} {l : List CaseTransitionLedger}
      → moves id row ≡ false
      → History id s l t
      → History id s (l ++ row ∷ []) t
  append_skip h here = skip h here
  append_skip h (skip k p) = skip k (append_skip h p)
  append_skip h (move k f t e p) = move k f t e (append_skip h p)

  append_move :
      {s t u : CaseState} {b : Branch} {l : List CaseTransitionLedger}
      → moves id row ≡ true
      → row.from_state ≡ some t
      → row.to_state ≡ some u
      → Edge t u b
      → History id s l t
      → History id s (l ++ row ∷ []) u
  append_move h f t e here = move h f t e here
  append_move h f t e (skip k p) = skip k (append_move h f t e p)
  append_move h f t e (move k f' t' e' p) = move k f' t' e' (append_move h f t e p)

-- The case `id`, which began at `s`, is where the ledger says.
pub record IsExplained (id : String) (s : CaseState) (db : Database) : Type 0 where
  pub case : PermitCase
  pub found : find (λ c. c.case_id == id) db.permit_cases ≡ some case
  pub history : History id s db.case_transition_ledger case.case_state

module _ (env : Env) (req : StateTransitionRequest) (s : CaseState) (db : Database)
    (r : StateTransitionResult) (h : evaluate env.registry req db ≡ ok r) where
  writes-IsExplained_own :
      IsExplained req.case_id s db → IsExplained req.case_id s (writes env req r db)
  unfolding writes ledger_row get_case
  writes-IsExplained_own x = elim (Bool-cases (is_applied r)) [
    | inr denied ↦ record {
      case = x.case;
      found = get_case-writes env req r db x.case x.found ∙ rw denied;
      history = append_skip (ledger_row req r) (ground arith) x.history;
    }
    | inl applies ↦
        let (same, permits) = evaluate_sound env.registry req db x.case r x.found h applies in
        record {
          case = record x.case { case_state = req.to_state };
          found = get_case-writes env req r db x.case x.found ∙ rw applies;
          history =
              append_move (ledger_row req r) (ground (arith, str_refl req.case_id))
                (ap some (sym same)) refl
                (subst (λ q. Edge q req.to_state permits.0) (sym same) permits.1) x.history;
        }
  ]

  writes-IsExplained_other :
      (id : String)
      → id ≢ req.case_id
      → IsExplained id s db
      → IsExplained id s (writes env req r db)
  unfolding writes ledger_row
  writes-IsExplained_other id ne x = record {
    case = x.case;
    found = find-writes_ne env req r db id ne ∙ x.found;
    history = append_skip (ledger_row req r) (ground (arith, eq_iff req.case_id id)) x.history;
  }

  writes-IsExplained : (id : String) → IsExplained id s db → IsExplained id s (writes env req r db)
  writes-IsExplained id x = elim (Bool-cases (id == req.case_id)) [
    | inl same ↦
        let p = (eq_iff id req.case_id).0 same in
        subst (λ i. IsExplained i s (writes env req r db)) (sym p)
          (writes-IsExplained_own (subst (λ i. IsExplained i s db) p x))
    | inr other ↦ writes-IsExplained_other id (λ p. cc ((eq_iff id req.case_id).1 p, other)) x
  ]

-- However an attempt ends, and whatever others commit beside it that keeps the case explained, the
-- ledger goes on to explain the state of the case.
pub attempt-IsExplained :
    (env : Env) (others : Database → Database) (req : StateTransitionRequest) (w : World)
    (id : String) (s : CaseState)
    → IsExplained id s w.db
    → IsExplained id s (others w.db)
    → IsExplained id s (attempt env others req w).1.db
attempt-IsExplained env others req w id s now after = elim (attempt-Leaves env others req w) [
  | nothing e ↦ rw e now
  | theirs e ↦ rw e after
  | ours r h e ↦ rw e (writes-IsExplained env req s (others w.db) r h id after)
]

-- Any number of requests, each handled to its end, a crash at a failpoint included.
pub handle_all : List (Env × StateTransitionRequest) → World → World
handle_all [] w = w
handle_all ((env, req) ∷ rest) w = handle_all rest (apply_state_transition env req w).1

-- If the applied rows of the ledger lead a case, edge by edge, from a state to the one in which it
-- is, they do so after any requests, each handled to its end.
pub handle_all-IsExplained :
    (requests : List (Env × StateTransitionRequest)) (w : World) (id : String) (s : CaseState)
    → IsExplained id s w.db
    → IsExplained id s (handle_all requests w).db
unfolding handle_all apply_state_transition
handle_all-IsExplained [] w id s x = x
handle_all-IsExplained ((env, req) ∷ rest) w id s x =
    handle_all-IsExplained rest (apply_state_transition env req w).1 id s
      (attempt-IsExplained env (λ db. db) req w id s x x)
