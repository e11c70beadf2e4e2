-- ===== src/Guard/Apply/Steps.antt =====
-- The steps of an attempt, one lemma for each way through it.
use sps_v.Common.{
  ◌≡◌, ◌≢◌, refl, ◌∙◌, ap, true, false, none, some, string_eq, arith, Result, ok, err, Error,
  Result-cases, Option-cases, Bool-cases, inl, inr,
}
use sps_v.Contracts.Transition.{StateTransitionRequest, StateTransitionResult}
use sps_v.Db.{Database, CaseTransitionLedger}
use sps_v.Guard.Branch.{branch}
use sps_v.Guard.Gates.Errors.{run_branch-ne-failpoint}
use sps_v.Guard.Apply.{
  requested_at, World, Env, get_ledger, persisted, evaluate, writes, violates, after_commit, reload,
  locked, attempt,
}

pub db-after_commit :
    (req : StateTransitionRequest) (r : StateTransitionResult) (w : World)
    → (after_commit req r w).1.db ≡ w.db
unfolding after_commit
db-after_commit req r w = refl

module _ (env : Env) (req : StateTransitionRequest) (w : World) where
  pub attempt_old :
      (others : Database → Database) (row : CaseTransitionLedger)
      → get_ledger req w.db ≡ some row
      → attempt env others req w ≡ after_commit req (persisted req row) w
  unfolding attempt
  attempt_old others row e = ground arith

  pub attempt_new :
      (others : Database → Database)
      → get_ledger req w.db ≡ none
      → attempt env others req w ≡ locked env req (record w { db = others w.db })
  unfolding attempt
  attempt_new others e = ground arith

  pub locked_err :
      (e : Error) → evaluate env.registry req w.db ≡ err e → locked env req w ≡ (err e, w)
  unfolding locked
  locked_err e h = ground arith

  pub locked_ok :
      (r : StateTransitionResult)
      → evaluate env.registry req w.db ≡ ok r
      → violates env req w.db ≡ false
      → locked env req w ≡ after_commit req r (record w { db = writes env req r w.db })
  unfolding locked
  locked_ok r h v = ground arith

  pub locked_raced :
      (r : StateTransitionResult) (row : CaseTransitionLedger)
      → evaluate env.registry req w.db ≡ ok r
      → get_ledger req w.db ≡ some row
      → locked env req w ≡ (ok (persisted req row), w)
  unfolding locked violates reload
  locked_raced r row h f = ground arith

  -- A UUID that is taken: the commit fails, and no row is there to read.
  pub locked_clash :
      (r : StateTransitionResult)
      → evaluate env.registry req w.db ≡ ok r
      → get_ledger req w.db ≡ none
      → violates env req w.db ≡ true
      → locked env req w ≡ (err Error.runtime_error, w)
  unfolding locked reload
  locked_clash r h f v = ground arith

  pub evaluate-ne-failpoint :
      (e : Error) → evaluate env.registry req w.db ≡ err e → e ≢ Error.failpoint_fired
  unfolding evaluate
  evaluate-ne-failpoint e h q = ground (
    arith,
    run_branch-ne-failpoint env.registry req (requested_at req) w.db
        (branch req.from_state req.to_state),
  )

abbrev out_db : Result StateTransitionResult × World → Database
out_db (r, w) = w.db

-- The database that an attempt leaves: the one that it began with, the one that others have left, or
-- that with its own writes.
pub data Leaves (env : Env) (others : Database → Database) (req : StateTransitionRequest)
    (w : World) (db : Database) : Type 0 where
  nothing : db ≡ w.db → Leaves env others req w db
  theirs : db ≡ others w.db → Leaves env others req w db
  ours :
      (r : StateTransitionResult)
      → evaluate env.registry req (others w.db) ≡ ok r
      → db ≡ writes env req r (others w.db)
      → Leaves env others req w db

module _ (env : Env) (others : Database → Database) (req : StateTransitionRequest) (w : World) where
  locked-Leaves :
      let v : World = record w { db = others w.db } in
      Leaves env others req w (locked env req v).1.db
  locked-Leaves =
      let v : World = record w { db = others w.db } in
      elim (Result-cases (evaluate env.registry req v.db)) [
        | inl (e, h) ↦ theirs (ap out_db (locked_err env req v e h))
        | inr (r, h) ↦ elim (Option-cases (get_ledger req v.db)) [
          | inr (row, won) ↦ theirs (ap out_db (locked_raced env req v r row h won))
          | inl new ↦ elim (Bool-cases (violates env req v.db)) [
            | inl clash ↦ theirs (ap out_db (locked_clash env req v r h new clash))
            | inr free ↦ ours r h (
                ap out_db (locked_ok env req v r h free)
                ∙ db-after_commit req r (record v { db = writes env req r v.db }))
          ]
        ]
      ]

  pub attempt-Leaves : Leaves env others req w (attempt env others req w).1.db
  attempt-Leaves = elim (Option-cases (get_ledger req w.db)) [
    | inr (row, old) ↦ nothing (
        ap out_db (attempt_old env req w others row old)
        ∙ db-after_commit req (persisted req row) w)
    | inl new ↦ rw (attempt_new env req w others new) locked-Leaves
  ]
