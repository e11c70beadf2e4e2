-- ===== src/Packages/Once.antt =====
-- A request stores one package, and a retry finds it.
use sps_v.Common.{
  ℕ, String, ◌≡◌, ◌⊎◌, refl, ap, true, false, ◌&&◌, none, some, List, [], ◌∷◌, ◌==◌, string_eq,
  arith, Bool-cases, Option-cases, List-cases, filter-append_one, ◌≢◌, inl, inr, is_some, latest,
  str_refl, ok, err, Error, Result,
}
use sps_v.Db.{Database, PermitCase, SubmissionPackage}
use sps_v.Cases.{find_case}
use sps_v.Packages.{
  PersistSubmissionPackageRequest, RegisteredPackage, get_package, is_request, package_of_request,
  package_row, conflicts, stores, reload, store, persist_submission_package,
}

latest-none : {A : Type 0} (key : A → ℕ) (xs : List A) → latest key xs ≡ none → xs ≡ []
unfolding latest
latest-none key [] e = refl
latest-none key (x ∷ xs) e = absurd (ground arith)

-- How the transaction ends.
pub data Stores (built : RegisteredPackage) (req : PersistSubmissionPackageRequest)
    (racing : Database → Database) (db : Database) (out : Result String × Database) : Type 0 where
  old :
      is_some (get_package built.package_id db) ≡ true
      → out ≡ (ok built.package_id, db)
      → Stores built req racing db out
  raced : out ≡ (reload built req db, db) → Stores built req racing db out
  stored :
      (case : PermitCase)
      → find_case req.case_id db ≡ some case
      → out ≡ (ok built.package_id, stores built req case.case_state (racing db))
      → Stores built req racing db out

module _ (built : RegisteredPackage) (req : PersistSubmissionPackageRequest)
    (racing : Database → Database) where
  pub store-Stores : (db : Database) → Stores built req racing db (store built req racing db)
  unfolding store conflicts
  store-Stores db = elim (Bool-cases (is_some (get_package built.package_id db))) [
    | inl there ↦ old there (rw there refl)
    | inr missing ↦ elim (Bool-cases (conflicts built req db)) [
      | inl clash ↦ raced (ground arith)
      | inr free ↦ elim (Option-cases (find_case req.case_id db)) [
        | inl gone ↦ absurd (ground arith)
        | inr (case, found) ↦ stored case found (ground arith)
      ]
    ]
  ]

  pub package_of_request-stores :
      (case : PermitCase) (db : Database)
      → package_of_request req db ≡ none
      → package_of_request req (stores built req case.case_state db) ≡ some (package_row built req)
  unfolding package_of_request stores package_row latest
  package_of_request-stores case db new = ap (latest (λ p. p.created_at)) (
      filter-append_one (λ p. p.case_id == req.case_id && is_request p.request_id req.request_id)
        db.submission_packages (package_row built req) (latest-none (λ p. p.created_at) _ new)
        (ground (arith, str_refl req.case_id, str_refl req.request_id)))

module _ (others racing : Database → Database) (built : RegisteredPackage)
    (req : PersistSubmissionPackageRequest) (db : Database) where
  -- How the activity goes.
  pub persist-cases :
      (persist_submission_package others racing built req db ≡ (err Error.lookup_error, db))
      ⊎ (((p : SubmissionPackage) × (package_of_request req db ≡ some p)
            × (persist_submission_package others racing built req db ≡ (ok p.package_id, db)))
          ⊎ ((package_of_request req db ≡ none)
              × (persist_submission_package others racing built req db
                  ≡ store built req racing (others db))))
  unfolding persist_submission_package
  persist-cases = elim (List-cases built.documents) [
    | inl nothing ↦ inl (rw nothing refl)
    | inr (d, ds, some_documents) ↦ elim (Option-cases (package_of_request req db)) [
      | inr (p, there) ↦ inr (inl (p, there, ground arith))
      | inl new ↦ inr (inr (new, ground arith))
    ]
  ]

  -- After the activity has returned an identifier, the newest package of the request is the one with
  -- that identifier: that it finds no other row under its new identifier is assumed, and that others
  -- store no package for the same request meanwhile.
  pub persist_found :
      (id : String) (db' : Database)
      → is_some (get_package built.package_id (others db)) ≡ false
      → (package_of_request req db ≡ none → package_of_request req (racing (others db)) ≡ none)
      → persist_submission_package others racing built req db ≡ (ok id, db')
      → (p : SubmissionPackage) × (package_of_request req db' ≡ some p) × (p.package_id ≡ id)
  unfolding reload package_row
  persist_found id db' fresh alone e = elim persist-cases [
    | inl q ↦ absurd (cc)
    | inr (inl (p, there, q)) ↦ (p, ground arith, ground arith)
    | inr (inr (new, q)) ↦ elim (store-Stores built req racing (others db)) [
      | old there s ↦ absurd (cc)
      | raced s ↦ elim (Option-cases (package_of_request req (others db))) [
        | inl missing ↦ absurd (ground arith)
        | inr (p, there) ↦ (p, ground arith, ground arith)
      ]
      | stored case found s ↦ (
        package_row built req,
        ground (
          arith,
          package_of_request-stores built req racing case (racing (others db)) (alone new),
        ),
        ground arith,
      )
    ]
  ]

  -- Once the activity has returned an identifier, and others have stored no package for the same
  -- request meanwhile, the activity for the same request, whatever documents it is given and whatever
  -- beside it, returns the same identifier and writes nothing, as long as the newest package of the
  -- request is the same.
  pub persist_submission_package-persist_submission_package :
      (others' racing' : Database → Database) (built' : RegisteredPackage) (id : String)
      (db' later : Database)
      → is_some (get_package built.package_id (others db)) ≡ false
      → (package_of_request req db ≡ none → package_of_request req (racing (others db)) ≡ none)
      → persist_submission_package others racing built req db ≡ (ok id, db')
      → built'.documents ≢ []
      → package_of_request req later ≡ package_of_request req db'
      → persist_submission_package others' racing' built' req later ≡ (ok id, later)
  unfolding persist_submission_package
  persist_submission_package-persist_submission_package others' racing' built' id db' later fresh
        alone e documents kept =
      let (p, found, name) = persist_found id db' fresh alone e in
      elim (List-cases built'.documents) [
        | inl nothing ↦ absurd (documents nothing)
        | inr (d, ds, some_documents) ↦ ground arith
      ]
