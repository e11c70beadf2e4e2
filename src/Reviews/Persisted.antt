-- ===== src/Reviews/Persisted.antt =====
-- `persist_review_decision` of src/sps/workflows/permit_case/activities_impl.py.
mod Examples
use Prim.Native.String.{◌++◌}
use mathlib.Core.List.{◌++◌ as ◌++ᴸ◌}
use sps_v.Common.{
  String, ◌≡◌, ◌⊎◌, refl, sym, ◌∙◌, ap, subst, inl, inr, Bool, true, false, not, ◌||◌, Bool-cases,
  Option, none, some, Option-cases, List, [], ◌∷◌, ◌==◌, string_eq, if◌then◌else◌, is_some, find,
  find-append_new, find-satisfies, str_refl, eq_iff, Result, ok, err, Error, arith,
}
use sps_v.Common.Time.{Datetime, to_utc}
use sps_v.Contracts.Enums.{ReviewDecisionOutcome, ReviewerIndependenceStatus}
use sps_v.Db.{Database, ReviewDecision}
use sps_v.Failpoints.{Failpoints, fail_once}

-- `object_type` can only be "PermitCase".
pub record PersistReviewDecisionRequest : Type 0 where
  pub decision_id : String
  pub schema_version : String
  pub case_id : String
  pub object_id : String
  pub decision_outcome : ReviewDecisionOutcome
  pub reviewer_id : String
  pub reviewer_independence_status : ReviewerIndependenceStatus
  pub evidence_ids : List String
  pub contradiction_resolution : Option String
  pub dissent_flag : Bool
  pub notes : Option String
  pub decision_at : Datetime
  pub idempotency_key : String

pub review_decision : PersistReviewDecisionRequest → ReviewDecision
review_decision req = record {
  decision_id = req.decision_id;
  schema_version = req.schema_version;
  case_id = req.case_id;
  object_type = "PermitCase";
  object_id = req.object_id;
  decision_outcome = req.decision_outcome;
  reviewer_id = req.reviewer_id;
  subject_author_id = none;
  reviewer_independence_status = req.reviewer_independence_status;
  evidence_ids = req.evidence_ids;
  contradiction_resolution = req.contradiction_resolution;
  dissent_flag = req.dissent_flag;
  notes = req.notes;
  decision_at = to_utc req.decision_at;
  idempotency_key = req.idempotency_key;
}

abbrev pub by_key : String → Database → Option ReviewDecision
by_key key db = find (λ r. r.idempotency_key == key) db.review_decisions

-- What the commit checks: the two unique columns, and the foreign key on the case.
pub clashes : PersistReviewDecisionRequest → Database → Bool
clashes req db =
    is_some (by_key req.idempotency_key db)
    || (is_some (find (λ r. r.decision_id == req.decision_id) db.review_decisions)
        || not (is_some (find (λ c. c.case_id == req.case_id) db.permit_cases)))

-- The failpoint after the transaction, which has found or stored a decision.
abbrev after_transaction :
    Failpoints
    → PersistReviewDecisionRequest
    → String
    → Database
    → Result String × Failpoints × Database
after_transaction fs req id db =
    let (fires, fs') =
      fail_once ("persist_review_decision.after_commit/" ++ req.idempotency_key) fs in
    if fires then (err Error.failpoint_fired, fs', db) else (ok id, fs', db)

-- The handler of an `IntegrityError`: the decision that won.
abbrev raced : Failpoints → Option ReviewDecision → Database → Result String × Failpoints × Database
raced fs none db = (err Error.runtime_error, fs, db)
raced fs (some row) db = (ok row.decision_id, fs, db)

-- The activity; `others` is what other transactions commit between its lookup and its commit.
pub persist_review_decision :
    (Database → Database)
    → Failpoints
    → PersistReviewDecisionRequest
    → Database
    → Result String × Failpoints × Database
persist_review_decision others fs req db = elim (by_key req.idempotency_key db) [
  | some existing ↦ after_transaction fs req existing.decision_id db
  | none ↦
      let now = others db in
      if clashes req now
      then raced fs (by_key req.idempotency_key now) now
      else after_transaction fs req req.decision_id
          (record now { review_decisions = now.review_decisions ++ᴸ review_decision req ∷ [] })
]

abbrev HasDecision : String → String → Database → Type 0
HasDecision key id db = (row : ReviewDecision) × (by_key key db ≡ some row) × (row.decision_id ≡ id)

after_returned :
    (fs fs' : Failpoints) (req : PersistReviewDecisionRequest) (id id' : String) (db db' : Database)
    → after_transaction fs req id db ≡ (ok id', fs', db')
    → (id ≡ id') × (db ≡ db')
after_returned fs fs' req id id' db db' e =
    elim (Bool-cases
      (fail_once ("persist_review_decision.after_commit/" ++ req.idempotency_key) fs).0) [
        | inl fires ↦ absurd (ground arith)
        | inr passes ↦ (ground arith, ground arith)
      ]

raced_returned :
    (fs fs' : Failpoints) (o : Option ReviewDecision) (id : String) (db db' : Database)
    → raced fs o db ≡ (ok id, fs', db')
    → (row : ReviewDecision) × (o ≡ some row) × (row.decision_id ≡ id) × (db ≡ db')
raced_returned fs fs' none id db db' e = absurd (cc (ap (λ p. p.0) e))
raced_returned fs fs' (some row) id db db' e = (row, refl, ground arith, ap (λ p. p.2) e)

new_key :
    (req : PersistReviewDecisionRequest) (db : Database)
    → clashes req db ≡ false
    → by_key req.idempotency_key db ≡ none
unfolding clashes
new_key req db free = elim (Option-cases (by_key req.idempotency_key db)) [
  | inl new ↦ new
  | inr (row, old) ↦ absurd (ground arith)
]

-- An activity that returns, returns the decision that is stored under its key.
HasDecision-persist :
    (others : Database → Database) (fs fs' : Failpoints) (req : PersistReviewDecisionRequest)
    (db db' : Database) (id : String)
    → persist_review_decision others fs req db ≡ (ok id, fs', db')
    → HasDecision req.idempotency_key id db'
unfolding persist_review_decision review_decision clashes
HasDecision-persist others fs fs' req db db' id e =
    elim (Option-cases (by_key req.idempotency_key db)) [
      | inr (row, there) ↦
          let (same, same_db) =
            after_returned fs fs' req row.decision_id id db db' (ground arith) in
          (row, subst (λ d. by_key req.idempotency_key d ≡ some row) same_db there, same)
      | inl missing ↦ elim (Bool-cases (clashes req (others db))) [
        | inl clash ↦
            let (row, there, same, same_db) =
              raced_returned fs fs' (by_key req.idempotency_key (others db)) id (others db) db'
                (ground arith) in
            (row, subst (λ d. by_key req.idempotency_key d ≡ some row) same_db there, same)
        | inr free ↦
            let after = record (others db) {
              review_decisions = (others db).review_decisions ++ᴸ review_decision req ∷ [];
            } in
            let (same, same_db) =
              after_returned fs fs' req req.decision_id id after db' (ground arith) in
            let new : by_key req.idempotency_key (others db) ≡ none =
              new_key req (others db) free in
            (
              review_decision req,
              subst (λ d. by_key req.idempotency_key d ≡ some (review_decision req)) same_db
                  (find-append_new (λ r. r.idempotency_key == req.idempotency_key)
                    (others db).review_decisions (review_decision req) new
                    (str_refl req.idempotency_key)),
              same,
            )
      ]
    ]

-- Once an activity has returned a decision, each later activity under the same key, whatever it was to
-- store, on a database that has the same row under the key, writes nothing, and returns that decision
-- or raises at an armed failpoint.
pub persist-persist_decision :
    (others others' : Database → Database) (fs fs' fs2 : Failpoints)
    (req req' : PersistReviewDecisionRequest) (db db' later : Database) (id : String)
    → persist_review_decision others fs req db ≡ (ok id, fs', db')
    → req'.idempotency_key ≡ req.idempotency_key
    → by_key req.idempotency_key later ≡ by_key req.idempotency_key db'
    → (let again = persist_review_decision others' fs2 req' later in
        (again.2 ≡ later) × ((again.0 ≡ ok id) ⊎ (again.0 ≡ err Error.failpoint_fired)))
unfolding persist_review_decision
persist-persist_decision others others' fs fs' fs2 req req' db db' later id e same kept =
    let (row, there, is) = HasDecision-persist others fs fs' req db db' id e in
    let found : by_key req'.idempotency_key later ≡ some row = rw same (kept ∙ there) in
    elim (Bool-cases
      (fail_once ("persist_review_decision.after_commit/" ++ req'.idempotency_key) fs2).0) [
        | inl fires ↦ rw (persist_review_decision, found, fires) (refl, inr refl)
        | inr passes ↦ rw (persist_review_decision, found, passes) (refl, inl (ap ok is))
      ]
