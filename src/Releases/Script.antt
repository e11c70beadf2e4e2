-- ===== src/Releases/Script.antt =====
-- `run_release_bundle` of scripts/generate_release_bundle.py, from where it has built the
-- components, against the service whose routes it calls with the legacy API key.
mod Examples
use sps_v.Auth.Grants.{refused_without_token}
use sps_v.Auth.{
  Role, Decoded, Credentials, Refusal, require_service_principal, require_roles_for, missing_token,
  extract_bearer_token,
}
use sps_v.Common.{
  ℕ, ◌<◌, String, ◌≡◌, ◌⊎◌, refl, inl, inr, Bool, true, false, Option, none, some, Bool-cases, List,
  [], ◌∷◌, if◌then◌else◌, ltb, arith,
}
use sps_v.Db.{Database}
use sps_v.Releases
use sps_v.Releases.{ReleaseBundleResponse, post_bundle, release_guard}
use sps_v.Releases.Blockers
use sps_v.Releases.Blockers.{Sorts, ReleaseBlockersResponse, get_release_blockers}
use sps_v.Releases.Manifest.{ManifestError, ReleaseBundleComponents, payload_of}

pub data Failure : Type 0 where
  manifest blockers post : Failure

pub record Arguments : Type 0 where
  pub reviewer_api_key : String
  pub simulate_blockers : Bool
  pub dry_run : Bool
  pub expect_failure : Option Failure

-- The exit code, or the exception of `raise_for_status` or `urlopen`.
pub data Exit : Type 0 where
  code : ℕ → Exit
  http_error : Exit

abbrev same_failure : Failure → Failure → Bool
same_failure Failure.manifest Failure.manifest = true
same_failure Failure.blockers Failure.blockers = true
same_failure Failure.post Failure.post = true
same_failure _ _ = false

-- `_handle_failure`
abbrev pub handle_failure : Failure → Option Failure → Exit
handle_failure e none = Exit.code 1
handle_failure e (some expected) = if same_failure expected e then Exit.code 0 else Exit.code 2

-- The headers of the script's requests; a proxy may add its own.
abbrev pub script_credentials : Option String → String → Credentials
script_credentials mtls key = record { authorization = none; mtls = mtls; api_key = some key }

-- The status of `_http_post_bundle` is 201 exactly for this answer.
abbrev pub posted : Releases.Reply → Bool
posted (Releases.Reply.created r) = true
posted _ = false

-- The end of the script, given what the service answers to the two requests.
pub after_blockers :
    Arguments
    → ReleaseBlockersResponse
    → (Database → Releases.Reply × Database)
    → Database
    → Exit × Database
after_blockers args found send db =
    if ltb 0 found.blocker_count
    then (handle_failure Failure.blockers args.expect_failure, db)
    else if args.dry_run
    then (Exit.code 0, db)
    else let (reply, after) = send db in
      if posted reply
      then (Exit.code 0, after)
      else (handle_failure Failure.post args.expect_failure, after)

pub run_release_bundle :
    Arguments
    → (Database → Blockers.Reply)
    → (Database → Releases.Reply × Database)
    → ManifestError ⊎ ReleaseBundleComponents
    → Database
    → Exit × Database
run_release_bundle args get send (inl e) db =
    (handle_failure Failure.manifest args.expect_failure, db)
run_release_bundle args get send (inr c) db =
    if args.simulate_blockers
    then (handle_failure Failure.blockers args.expect_failure, db)
    else elim (get db) [
      | Blockers.Reply.refused r ↦ (Exit.http_error, db)
      | Blockers.Reply.blockers found ↦ after_blockers args found send db
    ]

-- The script against the routes, at the times of the two requests.
abbrev pub run_against_service :
    (String → Decoded)
    → Sorts
    → Option String
    → ℕ
    → ℕ
    → Arguments
    → ManifestError ⊎ ReleaseBundleComponents
    → Database
    → Exit × Database
run_against_service decode sorts mtls asked_at posted_at args built db =
    run_release_bundle args
      (get_release_blockers sorts decode (script_credentials mtls args.reviewer_api_key) asked_at)
      (λ d. elim built [
        | inl e ↦ (Releases.Reply.validation_failed, d)
        | inr c ↦
            post_bundle decode (script_credentials mtls args.reviewer_api_key) (payload_of c)
              posted_at d
      ])
      built db

Reply-cases :
    (r : Blockers.Reply)
    → ((x : Refusal) × (r ≡ Blockers.Reply.refused x))
      ⊎ ((found : ReleaseBlockersResponse) × (r ≡ Blockers.Reply.blockers found))
Reply-cases (Blockers.Reply.refused x) = inl (x, refl)
Reply-cases (Blockers.Reply.blockers found) = inr (found, refl)

posted-created :
    (r : Releases.Reply)
    → posted r ≡ true
    → (x : ReleaseBundleResponse) × (r ≡ Releases.Reply.created x)
posted-created (Releases.Reply.created x) h = (x, refl)
posted-created Releases.Reply.validation_failed h = absurd (cc)
posted-created (Releases.Reply.invalid x) h = absurd (cc)
posted-created (Releases.Reply.already_exists x) h = absurd (cc)
posted-created (Releases.Reply.refused x) h = absurd (cc)

-- A run in which the script succeeds, expecting no failure and without a dry run, stores the bundle,
-- and the service counted no blocker.
pub run_release_bundle-gates :
    (args : Arguments) (get : Database → Blockers.Reply)
    (send : Database → Releases.Reply × Database) (built : ManifestError ⊎ ReleaseBundleComponents)
    (db : Database)
    → args.expect_failure ≡ none
    → args.dry_run ≡ false
    → (run_release_bundle args get send built db).0 ≡ Exit.code 0
    → ((found : ReleaseBlockersResponse) × (get db ≡ Blockers.Reply.blockers found)
        × (found.blocker_count ≡ 0))
      × ((r : ReleaseBundleResponse) × ((send db).0 ≡ Releases.Reply.created r))
      × ((run_release_bundle args get send built db).1 ≡ (send db).1)
unfolding run_release_bundle after_blockers
run_release_bundle-gates args get send (inl x) db plain wet e = absurd (ground arith)
run_release_bundle-gates args get send (inr c) db plain wet e =
    elim (Bool-cases args.simulate_blockers) [
      | inl simulated ↦ absurd (ground arith)
      | inr real ↦ elim (Reply-cases (get db)) [
        | inl (x, refused) ↦ absurd (ground arith)
        | inr (found, answered) ↦ elim (Bool-cases (ltb 0 found.blocker_count)) [
          | inl blocked ↦ absurd (ground arith)
          | inr free ↦ elim (Bool-cases (posted (send db).0)) [
            | inr failed ↦ absurd (ground arith)
            | inl sent ↦
                ((found, answered, ground arith), posted-created (send db).0 sent, ground arith)
          ]
        ]
      ]
    ]

-- Whatever its arguments, key and components, the script stores no bundle: the service asks for the
-- token of a service principal, which the script does not send.
pub run_against_service-stores_nothing :
    (decode : String → Decoded) (sorts : Sorts) (mtls : Option String) (asked_at posted_at : ℕ)
    (args : Arguments) (built : ManifestError ⊎ ReleaseBundleComponents) (db : Database)
    → (run_against_service decode sorts mtls asked_at posted_at args built db).1 ≡ db
unfolding run_release_bundle get_release_blockers
run_against_service-stores_nothing decode sorts mtls asked_at posted_at args (inl e) db = refl
run_against_service-stores_nothing decode sorts mtls asked_at posted_at args (inr c) db =
    elim (Bool-cases args.simulate_blockers) [
      | inl simulated ↦ rw simulated refl
      | inr real ↦
          let refused =
            refused_without_token decode (script_credentials mtls args.reviewer_api_key)
              (Role.ops ∷ []) refl in
          rw (real, refused) refl
    ]
