-- ===== src/Releases/Script/Examples.antt =====
-- The script against the service, with the key and through a proxy that has a service's token.
use sps_v.Auth.Samples.{sample_decode}
use sps_v.Common.{◌≡◌, refl, inr, false, none, some, []}
use sps_v.Db.{Database}
use sps_v.Db.Samples.{empty}
use sps_v.Releases
use sps_v.Releases.{ReleaseBundleResponse, ReleaseBundleRequest, post_bundle}
use sps_v.Releases.Blockers
use sps_v.Releases.Blockers.{Sorts, ReleaseBlockersResponse}
use sps_v.Releases.Manifest.{ReleaseBundleComponents}
use sps_v.Releases.Script.{
  Arguments, Exit, run_release_bundle, after_blockers, run_against_service,
  run_against_service-stores_nothing,
}

abbrev components : ReleaseBundleComponents
components = record {
  manifest = record {
    release_id = "release-1";
    versions = record {
      spec_version = "1";
      app_version = "2";
      schema_version = "3";
      model_version = "4";
      policy_bundle_version = "5";
      invariant_pack_version = "6";
      adapter_versions = [];
    };
    adapter_versions = [];
    artifact_digests = [];
    created_at = "2026-01-01";
  };
  artifacts = [];
}

abbrev arguments : Arguments
arguments = record {
  reviewer_api_key = "key";
  simulate_blockers = false;
  dry_run = false;
  expect_failure = none;
}

abbrev unsorted : Sorts
unsorted = record { contradictions = λ xs. xs; dissents = λ xs. xs }

run_against_service-stores_nothing_example :
    (run_against_service sample_decode unsorted
      (some "verified")
      5
      6
      arguments
      (inr components)
      empty).1
    ≡ empty
run_against_service-stores_nothing_example =
    run_against_service-stores_nothing sample_decode unsorted (some "verified") 5 6 arguments
      (inr components) empty

-- A service without blockers.
abbrev no_blockers : Database → Blockers.Reply
no_blockers db =
    Blockers.Reply.blockers
      (record { generated_at = 5; contradictions = []; dissents = []; blocker_count = 0 })

abbrev stored : ReleaseBundleResponse
stored = record { release_id = "release-1"; created_at = 6; artifact_count = 0; artifact_ids = [] }

abbrev accepting : Database → Releases.Reply × Database
accepting db = (Releases.Reply.created stored, db)

succeeds :
    (run_release_bundle arguments no_blockers accepting (inr components) empty).0 ≡ Exit.code 0
unfolding run_release_bundle after_blockers
succeeds = refl
