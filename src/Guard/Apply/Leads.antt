-- ===== src/Guard/Apply/Leads.antt =====
-- The guard moves cases along the diagram.
use sps_v.Common.{
  String, ◌≡◌, refl, sym, ◌∙◌, subst, some, ◌==◌, string_eq, arith, ok, Bool-cases, Option-cases,
  inl, inr, eq_iff,
}
use sps_v.Contracts.Transition.{StateTransitionRequest, StateTransitionResult, is_applied}
use sps_v.Db.{Database, PermitCase}
use sps_v.Diagram.{Leads, Leads-same, Leads-kept, Leads-moved, Leads-trans, stay, state_of-find}
use sps_v.Guard.Spec.{Edge}
use sps_v.Guard.Apply.{World, Env, get_case, evaluate, writes, attempt}
use sps_v.Guard.Apply.Exact.{evaluate_sound}
use sps_v.Guard.Apply.Effects.{get_case-writes, find-writes_ne}
use sps_v.Guard.Apply.Steps.{nothing, theirs, ours, attempt-Leaves}

module _ (env : Env) (req : StateTransitionRequest) (r : StateTransitionResult) (db : Database)
    (h : evaluate env.registry req db ≡ ok r) where
  writes-Leads_own :
      (case : PermitCase) → get_case req db ≡ some case → Leads req.case_id db (writes env req r db)
  unfolding get_case
  writes-Leads_own case found =
      let after = get_case-writes env req r db case found in
      elim (Bool-cases (is_applied r)) [
        | inr denied ↦
            Leads-kept req.case_id db (writes env req r db) case case found (after ∙ rw denied) refl
        | inl applies ↦
            let (same, (b, edge, needs)) =
              evaluate_sound env.registry req db case r found h applies in
            Leads-moved req.case_id db (writes env req r db) {b = b} case
              (record case { case_state = req.to_state }) found (after ∙ rw applies)
              (subst (λ s. Edge s req.to_state b) (sym same) edge)
      ]

  evaluate_found : (case : PermitCase) × (get_case req db ≡ some case)
  unfolding evaluate
  evaluate_found = elim (Option-cases (get_case req db)) [
    | inl missing ↦ absurd (ground arith)
    | inr p ↦ p
  ]

  pub writes-Leads : (id : String) → Leads id db (writes env req r db)
  writes-Leads id = elim (Bool-cases (id == req.case_id)) [
    | inl own ↦
        let (case, found) = evaluate_found in
        subst (λ i. Leads i db (writes env req r db)) (sym ((eq_iff id req.case_id).0 own))
          (writes-Leads_own case found)
    | inr other ↦ Leads-same id db (writes env req r db) (
        state_of-find id db (writes env req r db)
          (find-writes_ne env req r db id (λ p. cc ((eq_iff id req.case_id).1 p, other))))
  ]

-- However an attempt ends, a case has gone along the diagram, if others move it along the diagram.
pub attempt-Leads :
    (env : Env) (others : Database → Database) (req : StateTransitionRequest) (w : World)
    (id : String)
    → Leads id w.db (others w.db)
    → Leads id w.db (attempt env others req w).1.db
attempt-Leads env others req w id lead = elim (attempt-Leaves env others req w) [
  | nothing e ↦ subst (Leads id w.db) (sym e) stay
  | theirs e ↦ subst (Leads id w.db) (sym e) lead
  | ours r h e ↦ subst (Leads id w.db) (sym e) (
      Leads-trans id w.db (others w.db) (writes env req r (others w.db)) lead
        (writes-Leads env req r (others w.db) h id))
]
