-- ===== src/Guard/Apply/Idempotency.antt =====
-- A request is decided once: the ledger row that the first attempt commits is what every later
-- attempt returns, whatever crashed or raced in between.
use Prim.Native.String.{◌++◌}
use sps_v.Common.{
  ◌≡◌, ◌≢◌, ◌⊎◌, refl, ◌∙◌, ap, false, none, some, ◌==◌, string_eq, str_refl, if◌then◌else◌, arith,
  Result, ok, err, Error, Result-cases, Option-cases, Bool-cases, inl, inr, find-append_new,
}
use sps_v.Contracts.Transition.{StateTransitionRequest, StateTransitionResult}
use sps_v.Failpoints.{fail_once}
use sps_v.Failpoints.Laws.{fail_once-fail_once}
use sps_v.Db.{Database, CaseTransitionLedger}
use sps_v.Guard.Apply.Steps.{
  attempt_old, attempt_new, locked_err, locked_ok, locked_raced, locked_clash,
  evaluate-ne-failpoint,
}
use sps_v.Guard.Apply.{
  World, Env, get_ledger, persisted, evaluate, writes, violates, after_commit, locked, attempt,
  ledger_row,
}

-- The ledger holds `result` for the request.
pub record IsSettled (req : StateTransitionRequest) (result : StateTransitionResult) (db : Database)
    : Type 0 where
  pub row : CaseTransitionLedger
  pub found : get_ledger req db ≡ some row
  pub reads : persisted req row ≡ result

writes-IsSettled :
    (env : Env) (req : StateTransitionRequest) (r : StateTransitionResult) (db : Database)
    → get_ledger req db ≡ none
    → IsSettled req r (writes env req r db)
unfolding get_ledger writes
writes-IsSettled env req r db e = record {
  row = ledger_row req r;
  found =
      find-append_new (λ l. l.transition_id == req.request_id) db.case_transition_ledger
        (ledger_row req r) e (str_refl req.request_id);
  reads = refl;
}

-- How an attempt ends: it returns through the failpoint with the result in the ledger, it returns
-- the row of a rival, or it raises another exception and commits nothing.
data Ending (req : StateTransitionRequest) (old : World)
    (out : Result StateTransitionResult × World) : Type 0 where
  finished :
      (r : StateTransitionResult) (w : World)
      → IsSettled req r w.db
      → out ≡ after_commit req r w
      → Ending req old out
  reread :
      (r : StateTransitionResult) → IsSettled req r old.db → out ≡ (ok r, old) → Ending req old out
  aborted : (e : Error) → e ≢ Error.failpoint_fired → out ≡ (err e, old) → Ending req old out

locked-Ending :
    (env : Env) (req : StateTransitionRequest) (w : World) → Ending req w (locked env req w)
locked-Ending env req w = elim (Result-cases (evaluate env.registry req w.db)) [
  | inl (e, h) ↦ aborted e (evaluate-ne-failpoint env req w e h) (locked_err env req w e h)
  | inr (r, h) ↦ elim (Option-cases (get_ledger req w.db)) [
    | inr (row, f) ↦
        reread (persisted req row) (record { row = row; found = f; reads = refl })
          (locked_raced env req w r row h f)
    | inl f ↦ elim (Bool-cases (violates env req w.db)) [
      | inl v ↦ aborted Error.runtime_error (λ q. cc) (locked_clash env req w r h f v)
      | inr v ↦
          finished r (record w { db = writes env req r w.db }) (writes-IsSettled env req r w.db f)
            (locked_ok env req w r h v)
    ]
  ]
]

attempt-Ending :
    (env : Env) (others : Database → Database) (req : StateTransitionRequest) (w : World)
    → (old : World) × (Ending req old (attempt env others req w))
      × ((old ≡ w) ⊎ (old ≡ record w { db = others w.db }))
attempt-Ending env others req w = elim (Option-cases (get_ledger req w.db)) [
  | inr (row, f) ↦ (
    w,
    finished (persisted req row) w (record { row = row; found = f; reads = refl })
        (attempt_old env req w others row f),
    inl refl,
  )
  | inl f ↦ (
    record w { db = others w.db },
    rw (attempt_new env req w others f) (locked-Ending env req (record w { db = others w.db })),
    inr refl,
  )
]

module _ {req : StateTransitionRequest} {old : World}
    {out : Result StateTransitionResult × World} where
  IsSettled-ok :
      (r : StateTransitionResult) (w : World)
      → Ending req old out
      → out ≡ (ok r, w)
      → IsSettled req r w.db
  unfolding after_commit
  IsSettled-ok r w (finished r' w' s q) e = record {
    row = s.row;
    found = ground (arith, s.found);
    reads = ground (arith, s.reads);
  }
  IsSettled-ok r w (reread r' s q) e = record {
    row = s.row;
    found = ground (arith, s.found);
    reads = ground (arith, s.reads);
  }
  IsSettled-ok r w (aborted x n q) e = absurd (cc)

  IsSettled-crash :
      (w : World)
      → Ending req old out
      → out ≡ (err Error.failpoint_fired, w)
      → (r : StateTransitionResult) × IsSettled req r w.db
        × ((fail_once ("apply_state_transition.after_commit/" ++ req.request_id) w.failpoints).0
            ≡ false)
  unfolding after_commit
  IsSettled-crash w (finished r' w' s q) e = (
    r',
    record { row = s.row; found = ground (arith, s.found); reads = s.reads },
    ground (
      arith,
      fail_once-fail_once ("apply_state_transition.after_commit/" ++ req.request_id) w'.failpoints,
    ),
  )
  IsSettled-crash w (reread r' s q) e = absurd (cc)
  IsSettled-crash w (aborted x n q) e = absurd (n (ground arith))

  old_of_err :
      (e : Error) (w : World)
      → Ending req old out
      → out ≡ (err e, w)
      → e ≢ Error.failpoint_fired
      → w ≡ old
  unfolding after_commit
  old_of_err e w (finished r w' s q) h n = absurd (n (ground arith))
  old_of_err e w (reread r s q) h n = absurd (cc)
  old_of_err e w (aborted x m q) h n = cc

-- The result of a settled request, read again, with whatever failpoint is armed.
abbrev pub replay :
    StateTransitionRequest → StateTransitionResult → World → Result StateTransitionResult
replay req r w =
    if (fail_once ("apply_state_transition.after_commit/" ++ req.request_id) w.failpoints).0
    then err Error.failpoint_fired
    else ok r

attempt-IsSettled :
    (env : Env) (others : Database → Database) (req : StateTransitionRequest)
    (r : StateTransitionResult) (w : World)
    → IsSettled req r w.db
    → ((attempt env others req w).0 ≡ replay req r w) × ((attempt env others req w).1.db ≡ w.db)
unfolding after_commit
attempt-IsSettled env others req r w s =
    let e = attempt_old env req w others s.row s.found in
    (ground (arith, e, s.reads), ground (arith, e))

module _ (env env' : Env) (others others' : Database → Database) (req : StateTransitionRequest)
    (w w' later : World) where
  -- Once an attempt has returned a result, every later attempt of the same request, in any world
  -- whose ledger has the same row for it and whatever runs beside it, returns that result, or raises
  -- at an armed failpoint, and leaves the database as it found it.
  pub retry_returns :
      (r : StateTransitionResult)
      → attempt env others req w ≡ (ok r, w')
      → get_ledger req later.db ≡ get_ledger req w'.db
      → ((attempt env' others' req later).0 ≡ replay req r later)
        × ((attempt env' others' req later).1.db ≡ later.db)
  retry_returns r e same =
      let s = IsSettled-ok r w' (attempt-Ending env others req w).1 e in
      attempt-IsSettled env' others' req r later
        (record { row = s.row; found = same ∙ s.found; reads = s.reads })

module _ (env env' : Env) (others others' : Database → Database) (req : StateTransitionRequest)
    (w w' : World) where
  -- If an attempt crashes at the failpoint after its commit, the retry in the same process returns
  -- a result, the one that the crashed attempt wrote to the ledger, and writes nothing more.
  pub retry_after_crash :
      attempt env others req w ≡ (err Error.failpoint_fired, w')
      → (r : StateTransitionResult) × IsSettled req r w'.db
        × ((attempt env' others' req w').0 ≡ ok r)
        × ((attempt env' others' req w').1.db ≡ w'.db)
  retry_after_crash e =
      let (r, s, quiet) = IsSettled-crash w' (attempt-Ending env others req w).1 e in
      let (out, kept) = attempt-IsSettled env' others' req r w' s in (r, s, rw quiet at out, kept)

module _ (env : Env) (others : Database → Database) (req : StateTransitionRequest)
    (w w' : World) where
  -- An attempt that raises, other than at the failpoint, has committed nothing: the database is the
  -- one it began with, or that with what others have committed meanwhile.
  pub raise_writes_nothing :
      (e : Error)
      → attempt env others req w ≡ (err e, w')
      → e ≢ Error.failpoint_fired
      → (w'.db ≡ w.db) ⊎ (w'.db ≡ others w.db)
  raise_writes_nothing e h n =
      let (old, ending, from) = attempt-Ending env others req w in
      let same : w' ≡ old = old_of_err e w' ending h n in
      elim from [
        | inl p ↦ inl (ap (λ (v : World). v.db) (same ∙ p))
        | inr p ↦ inr (ap (λ (v : World). v.db) (same ∙ p))
      ]

  -- Two workers run one request. If a rival commits it while this attempt waits for the case row,
  -- this attempt, whatever it would have decided, returns the rival's result and commits nothing.
  pub loser_returns_winner :
      (r : StateTransitionResult) (row : CaseTransitionLedger)
      → get_ledger req w.db ≡ none
      → get_ledger req (others w.db) ≡ some row
      → evaluate env.registry req (others w.db) ≡ ok r
      → attempt env others req w ≡ (ok (persisted req row), record w { db = others w.db })
  loser_returns_winner r row new won decided =
      attempt_new env req w others new
      ∙ locked_raced env req (record w { db = others w.db }) r row decided won
