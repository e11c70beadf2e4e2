-- ===== src/Lib.antt =====
-- The permit case service SPS: the workflow of a case with its activities, the transition guard, the
-- review decisions, the legal holds, the changes of settings by the admin portal, and the releases.
--
-- A permit case moves through the states of `CaseState`. The workflow asks the activity
-- `apply_state_transition` for every move; the activity reads the Postgres tables, decides, and
-- commits the move with a ledger row and an audit event. Review decisions enter by the API
-- endpoint `create_review_decision`, which applies the reviewer independence policy; the guard's
-- review gate reads what it stores, and the contradictions and overrides that their endpoints
-- store. Between its moves the workflow calls the activities that store evidence, packages, attempts
-- at submission and records of what follows, which the guard's gates read in turn. Legal holds are
-- enforced by `assert_not_on_legal_hold`, and `dry_run_purge` lists what may be purged. The open
-- contradictions and dissents block a release, which a script asks about before it posts the bundle
-- that it builds. Who may call a route is decided by the guards of `Auth`.
--
-- Parts:
--   Common       tables as lists with the queries on them, results, times, texts, tests
--   Contracts    src/sps/workflows/permit_case/contracts.py: states, requests, results, signals
--   Db           src/sps/db/models_*.py: the rows, and `Database`, the tables together
--   Failpoints   src/sps/failpoints.py: `fail_once` with the state of one process
--   Assertions   src/sps/guards/guard_assertions.py: the registry and its lookup
--   Auth         src/sps/auth/identity.py and rbac.py: tokens to identities, and the guards of routes
--   Guard        apply_state_transition of src/sps/workflows/permit_case/activities_impl.py:
--                `Guard.Branch` is its elif chain, `Guard.Gates` the body of each branch, with one
--                function for each, `Guard.Apply` the transaction. `Guard.Spec` says what is to be
--                permitted. `attempt` takes what other transactions commit before the case row is
--                locked as a function on the database; `apply_state_transition` is the case of none.
--   Reviews      src/sps/api/routes/reviews.py: `Reviews.Independence` is the policy,
--                `Reviews.Decisions` the endpoints; `Reviews.Persisted` is the activity
--                persist_review_decision of activities_impl.py
--   Dissents     src/sps/api/routes/dissents.py
--   Contradictions
--                src/sps/api/routes/contradictions.py
--   Overrides    src/sps/api/routes/overrides.py
--   Emergencies  src/sps/api/routes/emergencies.py, and validate_emergency_artifact of
--                activities_impl.py
--   Cases        ensure_permit_case_exists, fetch_permit_case_state and
--                validate_reviewer_confirmation of activities_impl.py
--   Records      src/sps/workflows/permit_case/activities_records.py: `persist` is the body that its
--                four activities share, over the interface `RecordTable`
--   Evidence     the four activities of activities_impl.py that store jurisdictions, requirements,
--                evaluations and assessments: `persist_all` is their body, over the interface
--                `EvidenceTable`
--   ExternalStatus
--                persist_external_status_event of activities_impl.py, over the body of Records;
--                `ExternalStatus.Reports` is what an event says of its report,
--                `ExternalStatus.Fixtures` the selection of a mapping in src/sps/fixtures/phase7.py
--   Packages     persist_submission_package of activities_impl.py
--   Submission   deterministic_submission_adapter of activities_impl.py: `Submission.Rows` has its
--                types and rows, `transact` is its transaction, `conclude` what follows a conflict,
--                `finish` what follows an error
--   Diagram      the view of the database in which each case is at a node of the diagram of states
--   Workflow     src/sps/workflows/permit_case/workflow.py: its coroutines are programs, `Prog`;
--                `Workflow.Parts` has the helper methods, `Workflow.Run` the branches of run,
--                `Workflow.Signals` the signal handlers, `Workflow.Ids` the identifiers.
--                `Workflow.Perform` is one attempt of an activity, by the functions of the other
--                parts, and `Workflow.Steps` how a run proceeds: turns of `run` and of the
--                handlers in any order, signals, retries, lost answers, other transactions
--   Retention    src/sps/retention/guard.py and purge.py
--   Admin        the three change workflows of src/sps/services/admin_*.py and
--                src/sps/api/routes/admin_*.py: `Admin` is the body that they share, over a payload
--                and a `Service`, `Admin.Routes` the instances; `respond` is a call with its guard
--   Releases     src/sps/api/routes/releases.py, `Releases.Blockers` the query of what blocks a
--                release, `Releases.Manifest` src/sps/services/release_bundle_manifest.py, and
--                `Releases.Script` scripts/generate_release_bundle.py from where it has built
--
-- The state of a run is passed on explicitly: `World` is the database with the process's failpoints.
-- An exception is a value of `Error`, an HTTP error one of `Response`. An exception rolls a
-- transaction back, so it returns the database that was there. Times are whole microseconds since
-- `datetime.min` in UTC; a time without a zone is read as UTC, which is what the code makes of it.
-- Tables are lists in the order of insertion; primary keys and unique columns are tested where the
-- code commits. The workflow makes at most ten calls that answer, which `Within` counts. The only
-- loop on fuel is the one that writes a number in an identifier: it has one more than the number,
-- and a number has no more digits than that.
--
-- Parameters: the UUIDs and ULIDs of rows, the parsed registry file, the time of a request, the
-- order by which Postgres sorts rows, the records and the status mappings that the adapters load, the
-- generated documents with their identifiers, the object store's receipt, the settings, how
-- `jwt.decode` ends for a token, the files of a release with the identifiers found in them, and the
-- payloads of admin intents. The workflow engine is known by what `Turn` and `Step` allow it: an
-- activity may be attempted again as its retry policy says, and an answer may be lost after the
-- commit. `str.lower` and `str.upper`, and SQL's `upper`, are taken on letters of ASCII.
--
-- Not modelled: the endpoints that are not named above, such as those of cases and the queue of
-- reviewers, the rehearsal of a rollback, the reading of files, arguments and environment, the
-- generator of documents, logging, sessions, object storage, the client of the workflow engine, its
-- timeouts, JSON columns that no modelled code reads, and the timestamps that the server fills in and
-- no modelled code reads. The calls to the admin routes and the routes of releases are taken one after
-- another: what overlaps there, which the constraints of the tables decide, is left out.
pub mod Common
pub mod Contracts
pub mod Db
pub mod Failpoints
pub mod Assertions
pub mod Admin
pub mod Auth
pub mod Guard
pub mod Cases
pub mod Records
pub mod Contradictions
pub mod Dissents
pub mod Overrides
pub mod Emergencies
pub mod Diagram
pub mod Evidence
pub mod ExternalStatus
pub mod Packages
pub mod Submission
pub mod Workflow
pub mod Releases
pub mod Retention
pub mod Reviews
