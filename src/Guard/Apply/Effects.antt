-- ===== src/Guard/Apply/Effects.antt =====
-- What an attempt that decides a request writes: one ledger row, one audit event, and the state of
-- one case if the transition applies.
use sps_v.Common.{
  String, ◌≡◌, ◌≢◌, ◌∙◌, ap, true, none, some, [], ◌∷◌, ◌++◌, ◌==◌, string_eq, if◌then◌else◌, arith,
  ok, Result-cases, Bool-cases, inl, inr, eq_iff, find, find-update_self, find-update_ne,
  find-satisfies,
}
use sps_v.Contracts.Transition.{StateTransitionRequest, StateTransitionResult, is_applied}
use sps_v.Db.{Database, PermitCase}
use sps_v.Guard.Apply.{
  World, Env, get_ledger, get_case, evaluate, write_case, ledger_row, audit_row, writes, violates,
  after_commit, reload, locked, attempt, apply_state_transition, requested_at,
}
use sps_v.Guard.Apply.Exact.{evaluate_sound}
use sps_v.Guard.Spec.{Permits}

module _ (env : Env) (req : StateTransitionRequest) (r : StateTransitionResult)
    (db : Database) where
  pub get_case-writes :
      (case : PermitCase)
      → get_case req db ≡ some case
      → get_case req (writes env req r db)
        ≡ some (if is_applied r then record case { case_state = req.to_state } else case)
  unfolding get_case writes write_case
  get_case-writes case found = elim (Bool-cases (is_applied r)) [
    | inr denied ↦ rw denied found
    | inl applies ↦ rw applies (
        find-update_self (λ c. c.case_id == req.case_id)
          (λ c. record c { case_state = req.to_state }) db.permit_cases case
          (find-satisfies (λ c. c.case_id == req.case_id) db.permit_cases case found) found)
  ]

  pub find-writes_ne :
      (id : String)
      → id ≢ req.case_id
      → find (λ c. c.case_id == id) (writes env req r db).permit_cases
        ≡ find (λ c. c.case_id == id) db.permit_cases
  unfolding writes write_case
  find-writes_ne id ne = elim (Bool-cases (is_applied r)) [
    | inr denied ↦ rw denied
    | inl applies ↦ rw applies (
        find-update_ne (λ c. c.case_id == id) (λ c. c.case_id == req.case_id)
          (λ c. record c { case_state = req.to_state }) db.permit_cases
          (λ c h. ground (arith, eq_iff c.case_id req.case_id, eq_iff c.case_id id)))
  ]

module _ (env : Env) (req : StateTransitionRequest) (w w' : World) (r : StateTransitionResult) where
  -- A request that the ledger does not know, and that returns, was decided on the database as it
  -- stood, and has written what `writes` says.
  pub fresh_writes :
      get_ledger req w.db ≡ none
      → apply_state_transition env req w ≡ (ok r, w')
      → (evaluate env.registry req w.db ≡ ok r) × (w'.db ≡ writes env req r w.db)
  unfolding apply_state_transition attempt locked violates reload after_commit
  fresh_writes new e = elim (Result-cases (evaluate env.registry req w.db)) [
    | inl (x, h) ↦ absurd (ground arith)
    | inr (r', h) ↦ elim (Bool-cases (violates env req w.db)) [
      | inl v ↦ absurd (ground arith)
      | inr v ↦ (ground arith, ground arith)
    ]
  ]

  module _ (new : get_ledger req w.db ≡ none)
      (e : apply_state_transition env req w ≡ (ok r, w')) where
    -- A request that the ledger does not know, whose case is there, and that returns an applied
    -- result, found the case in the state that it starts from and was permitted by the tables.
    pub applied_is_permitted :
        (case : PermitCase)
        → get_case req w.db ≡ some case
        → is_applied r ≡ true
        → (case.case_state ≡ req.from_state) × Permits req (requested_at req) w.db
    applied_is_permitted case found h =
        evaluate_sound env.registry req w.db case r found (fresh_writes new e).0 h

    -- When a request that the ledger does not know returns, its case, if it is there, has moved to
    -- the requested state if the result is applied, and is as it was if not.
    pub case_moves :
        (case : PermitCase)
        → get_case req w.db ≡ some case
        → get_case req w'.db
          ≡ some (if is_applied r then record case { case_state = req.to_state } else case)
    case_moves case found =
        ap (get_case req) (fresh_writes new e).1 ∙ get_case-writes env req r w.db case found

    -- When a request that the ledger does not know returns, every other case is as it was.
    pub others_stay :
        (id : String)
        → id ≢ req.case_id
        → find (λ c. c.case_id == id) w'.db.permit_cases
          ≡ find (λ c. c.case_id == id) w.db.permit_cases
    others_stay id ne =
        ap (λ (d : Database). find (λ c. c.case_id == id) d.permit_cases) (fresh_writes new e).1
        ∙ find-writes_ne env req r w.db id ne

    -- When a request that the ledger does not know returns, one ledger row and one audit event have
    -- been added, each made of the request and the result.
    pub trail_grows :
        (w'.db.case_transition_ledger ≡ w.db.case_transition_ledger ++ ledger_row req r ∷ [])
        × (w'.db.audit_events ≡ w.db.audit_events ++ audit_row env req r ∷ [])
    unfolding writes
    trail_grows = (
      ap (λ (d : Database). d.case_transition_ledger) (fresh_writes new e).1,
      ap (λ (d : Database). d.audit_events) (fresh_writes new e).1,
    )
