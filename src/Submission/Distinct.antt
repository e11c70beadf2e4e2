-- ===== src/Submission/Distinct.antt =====
-- What the activity leaves behind: no two attempts for one request, and the cases where they were.
use sps_v.Common.{
  String, ◌≡◌, refl, sym, ◌∙◌, ap, subst, Bool, false, ◌||◌, ◌&&◌, List, [], ◌∷◌, ◌++◌, ◌==◌,
  string_eq, nat_eq, arith, Bool-cases, Option-cases, inl, inr, is_some, find, update, Unique,
  Unique-append, find-implies_none, Result, ok, err, Error,
}
use sps_v.Db.{Database, SubmissionAttempt}
use sps_v.Records.{get_attempt}
use sps_v.Diagram.{Leads, Leads-same, Leads-trans, state_of-cases, stay}
use sps_v.Submission.{
  SubmissionAdapterRequest, SubmissionAdapterResult, Delivery, load_existing_result,
  attempt_conflicts, pending_attempt, manual_attempt, submitted_attempt, store_manual,
  store_submitted, transact, mark_failed, finish, recover, conclude,
  deterministic_submission_adapter,
}
use sps_v.Submission.Retry.{
  Delivers, by_hand, to_portal, transact-Delivers, adapter_old, adapter_new,
}

-- The database after an activity: one that it found, with its failure recorded or not, or that with
-- the rows of a new attempt.
pub data Ends (delivery : Delivery) (req : SubmissionAdapterRequest) (db now db' : Database)
    : Type 0 where
  early : db' ≡ db → Ends delivery req db now db'
  early_failed : db' ≡ mark_failed req db → Ends delivery req db now db'
  late : db' ≡ now → Ends delivery req db now db'
  late_failed : db' ≡ mark_failed req now → Ends delivery req db now db'
  delivered :
      (r : SubmissionAdapterResult) → Delivers delivery req now r db' → Ends delivery req db now db'

module _ (delivery : Delivery) (req : SubmissionAdapterRequest) (db now : Database) where
  finish_early : (r : Result SubmissionAdapterResult) → Ends delivery req db now (finish req db r).1
  unfolding finish
  finish_early (ok r) = early refl
  finish_early (err e) = early_failed refl

  finish_late : (r : Result SubmissionAdapterResult) → Ends delivery req db now (finish req now r).1
  unfolding finish
  finish_late (ok r) = late refl
  finish_late (err e) = late_failed refl

  conclude-Ends :
      (out : Result (SubmissionAdapterResult × Database))
      → transact delivery req now ≡ out
      → Ends delivery req db now (conclude req now out).1
  unfolding conclude
  conclude-Ends (ok (r, db')) e = delivered r (transact-Delivers delivery req now r db' e)
  conclude-Ends (err Error.integrity_error) e = finish_late (recover req now)
  conclude-Ends (err Error.lookup_error) e = finish_late (err Error.lookup_error)
  conclude-Ends (err x) e = finish_late (err x)

abbrev out_db : Result SubmissionAdapterResult × Database → Database
out_db (r, db) = db

pub adapter-Ends :
    (delivery : Delivery) (req : SubmissionAdapterRequest) (others : Database → Database)
    (db : Database)
    → Ends delivery req db (others db) (deterministic_submission_adapter delivery req others db).1
adapter-Ends delivery req others db =
    elim (Option-cases (get_attempt req.submission_attempt_id db)) [
      | inr (a, found) ↦
          subst (Ends delivery req db (others db))
            (sym (ap out_db (adapter_old delivery req others db a found)))
            (finish_early delivery req db (others db) (load_existing_result db a))
      | inl new ↦
          subst (Ends delivery req db (others db))
            (sym (ap out_db (adapter_new delivery req others db new)))
            (conclude-Ends delivery req db (others db) (transact delivery req (others db)) refl)
    ]

-- No two attempts have the same identifier, request or idempotency key.
pub record IsDistinct (db : Database) : Type 0 where
  pub ids : Unique (λ a. a.submission_attempt_id) db.submission_attempts
  pub requests : Unique (λ a. a.request_id) db.submission_attempts
  pub keys : Unique (λ a. a.idempotency_key) db.submission_attempts

-- An update that keeps the keys.
module _ (key : SubmissionAttempt → String) (p : SubmissionAttempt → Bool)
    (f : SubmissionAttempt → SubmissionAttempt)
    (keeps : (a : SubmissionAttempt) → key (f a) ≡ key a) where
  find-update_key :
      (k : String) (xs : List SubmissionAttempt)
      → is_some (find (λ a. key a == k) (update p f xs)) ≡ is_some (find (λ a. key a == k) xs)
  unfolding find update
  find-update_key k [] = refl
  find-update_key k (x ∷ xs) = ground (arith, keeps x, find-update_key k xs)

  Unique-update : (xs : List SubmissionAttempt) → Unique key xs → Unique key (update p f xs)
  unfolding update
  Unique-update [] h = tt
  Unique-update (x ∷ xs) (new, h) =
      let still : (k : String)
          → key x ≡ k
          → is_some (find (λ a. key a == k) (update p f xs)) ≡ false =
        λ k e. find-update_key k xs ∙ ap (λ s. is_some (find (λ a. key a == s) xs)) (sym e) ∙ new in
      elim (Bool-cases (p x)) [
        | inl hit ↦ rw hit (still (key (f x)) (sym (keeps x)), Unique-update xs h)
        | inr miss ↦ rw miss (still (key x) refl, Unique-update xs h)
      ]

module _ (req : SubmissionAdapterRequest) (db : Database) where
  mark_failed-IsDistinct : IsDistinct db → IsDistinct (mark_failed req db)
  unfolding mark_failed
  mark_failed-IsDistinct h = record {
    ids = Unique-update (λ a. a.submission_attempt_id) _ _ (λ a. refl) db.submission_attempts h.ids;
    requests = Unique-update (λ a. a.request_id) _ _ (λ a. refl) db.submission_attempts h.requests;
    keys = Unique-update (λ a. a.idempotency_key) _ _ (λ a. refl) db.submission_attempts h.keys;
  }

  -- Attempts with one more, whose keys are the request's.
  append-IsDistinct :
      (a : SubmissionAttempt) (db' : Database)
      → a.submission_attempt_id ≡ req.submission_attempt_id
      → a.request_id ≡ req.request_id
      → a.idempotency_key ≡ req.idempotency_key
      → attempt_conflicts req db ≡ false
      → db'.submission_attempts ≡ db.submission_attempts ++ a ∷ []
      → IsDistinct db
      → IsDistinct db'
  unfolding attempt_conflicts
  append-IsDistinct a db' i r k free same h =
      let conflict : SubmissionAttempt → Bool = λ b.
        b.submission_attempt_id == req.submission_attempt_id
        || (b.request_id == req.request_id
            || (b.idempotency_key == req.idempotency_key
                || (b.case_id == req.case_id && b.attempt_number == req.attempt_number))) in
      record {
        ids = subst (Unique (λ b. b.submission_attempt_id)) (sym same) (
            Unique-append (λ b. b.submission_attempt_id) db.submission_attempts a h.ids
              (ap is_some (
                find-implies_none (λ b. b.submission_attempt_id == a.submission_attempt_id) conflict
                  (λ b e. ground arith) db.submission_attempts free)));
        requests = subst (Unique (λ b. b.request_id)) (sym same) (
            Unique-append (λ b. b.request_id) db.submission_attempts a h.requests
              (ap is_some (
                find-implies_none (λ b. b.request_id == a.request_id) conflict (λ b e. ground arith)
                  db.submission_attempts free)));
        keys = subst (Unique (λ b. b.idempotency_key)) (sym same) (
            Unique-append (λ b. b.idempotency_key) db.submission_attempts a h.keys
              (ap is_some (
                find-implies_none (λ b. b.idempotency_key == a.idempotency_key) conflict
                  (λ b e. ground arith) db.submission_attempts free)));
      }

Delivers-IsDistinct :
    (delivery : Delivery) (req : SubmissionAdapterRequest) (db db' : Database)
    (r : SubmissionAdapterResult)
    → Delivers delivery req db r db'
    → IsDistinct db
    → IsDistinct db'
unfolding store_manual store_submitted manual_attempt submitted_attempt pending_attempt
Delivers-IsDistinct delivery req db db' r (by_hand case pack c p free hand) h =
    append-IsDistinct req db (manual_attempt req case pack) (store_manual delivery req db case pack)
      refl refl refl free refl h
Delivers-IsDistinct delivery req db db' r (to_portal case pack receipt c p free portal q) h =
    append-IsDistinct req db (submitted_attempt delivery req receipt case pack)
      (store_submitted delivery req db case pack receipt) refl refl refl free refl h

-- However the activity ends, if no two attempts had the same identifier, request or idempotency key
-- before it and after what others commit beside it, no two have afterwards.
pub adapter-IsDistinct :
    (delivery : Delivery) (req : SubmissionAdapterRequest) (others : Database → Database)
    (db : Database)
    → IsDistinct db
    → IsDistinct (others db)
    → IsDistinct (deterministic_submission_adapter delivery req others db).1
adapter-IsDistinct delivery req others db before after =
    elim (adapter-Ends delivery req others db) [
      | early e ↦ subst IsDistinct (sym e) before
      | early_failed e ↦ subst IsDistinct (sym e) (mark_failed-IsDistinct req db before)
      | late e ↦ subst IsDistinct (sym e) after
      | late_failed e ↦ subst IsDistinct (sym e) (mark_failed-IsDistinct req (others db) after)
      | delivered r d ↦ Delivers-IsDistinct delivery req (others db) _ r d after
    ]

Delivers-cases :
    (delivery : Delivery) (req : SubmissionAdapterRequest) (db db' : Database)
    (r : SubmissionAdapterResult)
    → Delivers delivery req db r db'
    → db'.permit_cases ≡ db.permit_cases
unfolding store_manual store_submitted
Delivers-cases delivery req db db' r (by_hand case pack c p free hand) = refl
Delivers-cases delivery req db db' r (to_portal case pack receipt c p free portal q) = refl

-- The activity itself leaves the cases where they are.
pub adapter-Leads :
    (delivery : Delivery) (req : SubmissionAdapterRequest) (others : Database → Database)
    (id : String) (db : Database)
    → Leads id db (others db)
    → Leads id db (deterministic_submission_adapter delivery req others db).1
unfolding mark_failed
adapter-Leads delivery req others id db lead =
    let now = others db in
    let kept : (d : Database) → d.permit_cases ≡ now.permit_cases → Leads id db d =
      λ d e. Leads-trans id db now d lead (Leads-same id now d (state_of-cases id now d e)) in
    elim (adapter-Ends delivery req others db) [
      | early e ↦ subst (Leads id db) (sym e) stay
      | early_failed e ↦
          Leads-same id db _ (state_of-cases id db _ (ap (λ (d : Database). d.permit_cases) e))
      | late e ↦ subst (Leads id db) (sym e) lead
      | late_failed e ↦ kept _ (ap (λ (d : Database). d.permit_cases) e)
      | delivered r d ↦ kept _ (Delivers-cases delivery req now _ r d)
    ]
