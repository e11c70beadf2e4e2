-- ===== src/Submission/Retry.antt =====
-- An attempt that has been made is not made again: a retry reads its result back.
use sps_v.Common.{
  String, ◌≡◌, ◌≢◌, refl, sym, ◌∙◌, ap, subst, true, false, ◌||◌, ◌&&◌, none, some, [], ◌∷◌, ◌==◌,
  string_eq, nat_eq, arith, Bool-cases, Option-cases, inl, inr, is_some, find, find-append_new,
  find-implies_none, filter-implies_none, filter-append_one, str_refl, eq_iff, Result, ok, err,
  Error, one_or_none,
}
use sps_v.Db.{Database, PermitCase, SubmissionPackage, SubmissionAttempt, ManualFallbackPackage}
use sps_v.Cases.{find_case}
use sps_v.Packages.{get_package}
use sps_v.Records.{get_attempt}
use sps_v.Submission.{
  SubmissionAdapterRequest, SubmissionAdapterResult, Delivery, fallbacks_of, result_of,
  load_existing_result, pending_attempt, attempt_conflicts, fallback_required, fallback_row,
  or_else, manual_attempt, fallback_conflicts, manual_result, store_manual, submitted_result,
  store_submitted, fall_back, submitted_attempt, submit, deliver, transact, finish, raced_attempt,
  recover, conclude, deterministic_submission_adapter,
}

-- The case, if it is there, has a portal support level.
abbrev pub HasLevel : SubmissionAdapterRequest → Database → Type 0
HasLevel req db =
    (case : PermitCase) → find_case req.case_id db ≡ some case → case.portal_support_level ≢ ""

module _ (db : Database) (a : SubmissionAttempt) where
  load_one :
      (m : ManualFallbackPackage)
      → fallbacks_of a.submission_attempt_id db ≡ m ∷ []
      → load_existing_result db a ≡ ok (result_of a (some m))
  unfolding load_existing_result
  load_one m e = rw (e, load_existing_result) refl

  load_none :
      fallbacks_of a.submission_attempt_id db ≡ []
      → load_existing_result db a ≡ ok (result_of a none)
  unfolding load_existing_result
  load_none e = rw (e, load_existing_result) refl

-- What a transaction that commits has stored.
pub data Delivers (delivery : Delivery) (req : SubmissionAdapterRequest) (db : Database)
    : SubmissionAdapterResult → Database → Type 0 where
  by_hand :
      (case : PermitCase) (pack : SubmissionPackage)
      → find_case req.case_id db ≡ some case
      → get_package req.package_id db ≡ some pack
      → attempt_conflicts req db ≡ false
      → fallback_required (or_else case.portal_support_level "UNKNOWN") ≡ true
      → Delivers delivery req db
          (manual_result delivery req case)
          (store_manual delivery req db case pack)
  to_portal :
      (case : PermitCase) (pack : SubmissionPackage) (receipt : String)
      → find_case req.case_id db ≡ some case
      → get_package req.package_id db ≡ some pack
      → attempt_conflicts req db ≡ false
      → fallback_required (or_else case.portal_support_level "UNKNOWN") ≡ false
      → delivery.receipt ≡ some receipt
      → Delivers delivery req db
          (submitted_result delivery req receipt case)
          (store_submitted delivery req db case pack receipt)

module _ (delivery : Delivery) (req : SubmissionAdapterRequest) (db : Database) where
  abbrev Out : SubmissionAdapterResult × Database → Type 0
  Out (r, db') = Delivers delivery req db r db'

  pub transact-Delivers :
      (r : SubmissionAdapterResult) (db' : Database)
      → transact delivery req db ≡ ok (r, db')
      → Delivers delivery req db r db'
  unfolding transact deliver fall_back submit
  transact-Delivers r db' e = elim (Option-cases (find_case req.case_id db)) [
    | inl no_case ↦ absurd (ground arith)
    | inr (case, c) ↦ elim (Option-cases (get_package req.package_id db)) [
      | inl no_package ↦ absurd (ground arith)
      | inr (pack, p) ↦ elim (Bool-cases (attempt_conflicts req db)) [
        | inl clash ↦ absurd (ground arith)
        | inr free ↦
            elim (Bool-cases (fallback_required (or_else case.portal_support_level "UNKNOWN"))) [
              | inl hand ↦ elim (Bool-cases (fallback_conflicts req case pack db)) [
                | inl taken ↦ absurd (ground arith)
                | inr new ↦ subst Out (ground arith) (by_hand case pack c p free hand)
              ]
              | inr portal ↦ elim (Option-cases delivery.receipt) [
                | inl lost ↦ absurd (ground arith)
                | inr (receipt, q) ↦
                    elim (Bool-cases
                      (is_some (find (λ e. e.artifact_id == receipt) db.evidence_artifacts))) [
                        | inl taken ↦ absurd (ground arith)
                        | inr new ↦
                            subst Out (ground arith) (to_portal case pack receipt c p free portal q)
                      ]
              ]
            ]
      ]
    ]
  ]

  pub no_attempt :
      attempt_conflicts req db ≡ false → get_attempt req.submission_attempt_id db ≡ none
  unfolding attempt_conflicts
  no_attempt h =
      find-implies_none (λ a. a.submission_attempt_id == req.submission_attempt_id)
        (λ a.
          a.submission_attempt_id == req.submission_attempt_id
          || (a.request_id == req.request_id
              || (a.idempotency_key == req.idempotency_key
                  || (a.case_id == req.case_id && a.attempt_number == req.attempt_number))))
        (λ a e. ground arith) db.submission_attempts h

  no_race : attempt_conflicts req db ≡ false → raced_attempt req db ≡ ok none
  unfolding attempt_conflicts raced_attempt
  no_race h =
      rw
        (filter-implies_none
          (λ a. a.request_id == req.request_id || a.idempotency_key == req.idempotency_key)
          (λ a.
            a.submission_attempt_id == req.submission_attempt_id
            || (a.request_id == req.request_id
                || (a.idempotency_key == req.idempotency_key
                    || (a.case_id == req.case_id && a.attempt_number == req.attempt_number))))
          (λ a e. ground arith) db.submission_attempts h)
        refl

  -- A transaction that meets no other attempt, and after which the activity returns, has committed.
  conclude-ok :
      (r : SubmissionAdapterResult) (db' : Database)
      (out : Result (SubmissionAdapterResult × Database))
      → raced_attempt req db ≡ ok none
      → conclude req db out ≡ (ok r, db')
      → out ≡ ok (r, db')
  unfolding conclude finish recover
  conclude-ok r db' (ok (s, d)) alone e = ground arith
  conclude-ok r db' (err Error.integrity_error) alone e = absurd (ground arith)
  conclude-ok r db' (err x) alone e = absurd (ground arith)

  pub transact_of_conclude :
      (r : SubmissionAdapterResult) (db' : Database)
      → attempt_conflicts req db ≡ false
      → conclude req db (transact delivery req db) ≡ (ok r, db')
      → Delivers delivery req db r db'
  transact_of_conclude r db' free e =
      transact-Delivers r db' (conclude-ok r db' (transact delivery req db) (no_race free) e)

  level_kept : (s : String) → s ≢ "" → or_else s "UNKNOWN" ≡ s
  level_kept s ne = ground (arith, eq_iff s "")

  -- The row that is stored reads back as the result that is returned.
  abbrev ReadsBack : SubmissionAdapterResult → Database → Type 0
  ReadsBack r db' =
      (a : SubmissionAttempt) × (get_attempt req.submission_attempt_id db' ≡ some a)
      × (a.submission_attempt_id ≡ req.submission_attempt_id)
      × (load_existing_result db' a ≡ ok r)

  ReadsBack-manual :
      (case : PermitCase) (pack : SubmissionPackage)
      → attempt_conflicts req db ≡ false
      → fallbacks_of req.submission_attempt_id db ≡ []
      → case.portal_support_level ≢ ""
      → ReadsBack (manual_result delivery req case) (store_manual delivery req db case pack)
  unfolding store_manual manual_attempt pending_attempt fallback_row manual_result
  ReadsBack-manual case pack free none_yet level =
      let a = manual_attempt req case pack in
      let db' = store_manual delivery req db case pack in
      (
        a,
        find-append_new (λ x. x.submission_attempt_id == req.submission_attempt_id)
            db.submission_attempts a (no_attempt free) (str_refl req.submission_attempt_id),
        refl,
        load_one db' a (fallback_row delivery req db case pack) (
              filter-append_one
                (λ m. elim m.submission_attempt_id [
                  | none ↦ false
                  | some x ↦ x == req.submission_attempt_id
                ])
                db.manual_fallback_packages (fallback_row delivery req db case pack) none_yet
                (str_refl req.submission_attempt_id))
            ∙ rw (level_kept case.portal_support_level level) refl,
      )

  ReadsBack-submitted :
      (case : PermitCase) (pack : SubmissionPackage) (receipt : String)
      → attempt_conflicts req db ≡ false
      → fallbacks_of req.submission_attempt_id db ≡ []
      → case.portal_support_level ≢ ""
      → ReadsBack
          (submitted_result delivery req receipt case)
          (store_submitted delivery req db case pack receipt)
  unfolding store_submitted submitted_attempt pending_attempt submitted_result
  ReadsBack-submitted case pack receipt free none_yet level =
      let a = submitted_attempt delivery req receipt case pack in
      let db' = store_submitted delivery req db case pack receipt in
      (
        a,
        find-append_new (λ x. x.submission_attempt_id == req.submission_attempt_id)
            db.submission_attempts a (no_attempt free) (str_refl req.submission_attempt_id),
        refl,
        load_none db' a none_yet ∙ rw (level_kept case.portal_support_level level) refl,
      )

  ReadsBack-delivered :
      (r : SubmissionAdapterResult) (db' : Database)
      → HasLevel req db
      → fallbacks_of req.submission_attempt_id db ≡ []
      → Delivers delivery req db r db'
      → ReadsBack r db'
  ReadsBack-delivered r db' level none_yet (by_hand case pack c p free hand) =
      ReadsBack-manual case pack free none_yet (level case c)
  ReadsBack-delivered r db' level none_yet (to_portal case pack receipt c p free portal q) =
      ReadsBack-submitted case pack receipt free none_yet (level case c)

module _ (delivery : Delivery) (req : SubmissionAdapterRequest) (others : Database → Database)
    (db : Database) where
  pub adapter_old :
      (a : SubmissionAttempt)
      → get_attempt req.submission_attempt_id db ≡ some a
      → deterministic_submission_adapter delivery req others db
        ≡ finish req db (load_existing_result db a)
  unfolding deterministic_submission_adapter
  adapter_old a e = rw (e, deterministic_submission_adapter) refl

  pub adapter_new :
      get_attempt req.submission_attempt_id db ≡ none
      → deterministic_submission_adapter delivery req others db
        ≡ conclude req (others db) (transact delivery req (others db))
  unfolding deterministic_submission_adapter
  adapter_new e = rw (e, deterministic_submission_adapter) refl

-- If the activity, where there is no attempt in the way of the new one, nor a fallback package that
-- names it, and the case has a portal support level, returns a result, then called again for the same
-- request, with whatever deliveries and whatever beside it, on a database with the same row of the
-- attempt and the same fallback packages of it, it returns the same result and writes nothing.
pub adapter-adapter :
    (delivery delivery' : Delivery) (req : SubmissionAdapterRequest)
    (others others' : Database → Database) (db db' later : Database) (r : SubmissionAdapterResult)
    → get_attempt req.submission_attempt_id db ≡ none
    → attempt_conflicts req (others db) ≡ false
    → fallbacks_of req.submission_attempt_id (others db) ≡ []
    → HasLevel req (others db)
    → deterministic_submission_adapter delivery req others db ≡ (ok r, db')
    → get_attempt req.submission_attempt_id later ≡ get_attempt req.submission_attempt_id db'
    → fallbacks_of req.submission_attempt_id later ≡ fallbacks_of req.submission_attempt_id db'
    → deterministic_submission_adapter delivery' req others' later ≡ (ok r, later)
unfolding finish load_existing_result
adapter-adapter delivery delivery' req others others' db db' later r new free none_yet level e same
      fallbacks =
    let made =
      transact_of_conclude delivery req (others db) r db' free
        (sym (adapter_new delivery req others db new) ∙ e) in
    let (a, found, name, loaded) =
      ReadsBack-delivered delivery req (others db) r db' level none_yet made in
    let loaded_later : load_existing_result later a ≡ ok r =
      ap (λ ms. elim (one_or_none ms) [ err x ↦ err x | ok m ↦ ok (result_of a m) ])
        (ap (λ id. fallbacks_of id later) name
          ∙ fallbacks
          ∙ sym (ap (λ id. fallbacks_of id db') name))
      ∙ loaded in
    adapter_old delivery' req others' later a (same ∙ found) ∙ ap (finish req later) loaded_later
