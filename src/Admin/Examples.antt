-- ===== src/Admin/Examples.antt =====
-- A source rule that is asked for, approved, rejected and applied.
use sps_v.Auth.Samples.{decode_role, with_role, admin_granted, reviewer_granted}
use sps_v.Common.{
  ◌++◌, String, ◌≡◌, ◌⊎◌, refl, inl, false, Option, some, List, [], ◌∷◌, ◌==◌, string_eq, is_some,
  find,
}
use sps_v.Common.Text.{upper}
use sps_v.Admin.Calls.{AdminCall, respond, respond_all}
use sps_v.Admin.{
  Setting, Store, Service, source_rules, IntentCreateRequest, ReviewDecisionRequest, Reply,
  record_review, store_review,
}
use sps_v.Admin.Origins.{IsSound}
use sps_v.Admin.Approved.{respond_all-IsSound}
use sps_v.Admin.Settings.{IsChange, apply_cases}
use sps_v.Admin.Stands.{IsApproved, approval_stands}

abbrev admin : Option String
admin = some "Bearer admin"

abbrev reviewer : Option String
reviewer = some "Bearer reviewer"

abbrev service : Service String
service = source_rules String

abbrev intent : IntentCreateRequest String
intent = record { intent_id = "i"; key = "scope"; payload = "rule"; requested_by = "admin" }

abbrev review : String → String → ReviewDecisionRequest
review id outcome = record {
  review_id = id;
  intent_id = "i";
  reviewer_id = "reviewer";
  decision_outcome = outcome;
  idempotency_key = id;
}

abbrev nothing : Store String
nothing = record { intents = []; reviews = []; settings = []; audit_events = [] }

abbrev asked : List (AdminCall String)
asked =
    AdminCall.post_intent admin intent 1
    ∷ AdminCall.post_review reviewer (review "r" "Approved") 2
    ∷ []

abbrev rejected : List (AdminCall String)
rejected = AdminCall.post_review reviewer (review "r2" "rejected") 3 ∷ []

abbrev applied : List (AdminCall String)
applied = AdminCall.post_apply admin "SR-1" "i" 4 ∷ []

nothing-IsSound : IsSound nothing
nothing-IsSound = record { keys = tt; origins = tt }

respond_all-IsSound_example :
    IsSound (respond_all decode_role service (asked ++ rejected ++ applied) nothing)
respond_all-IsSound_example =
    respond_all-IsSound decode_role service (asked ++ rejected ++ applied) nothing nothing-IsSound

-- A store in which the intent is approved.
abbrev approved : Store String
approved = record nothing {
  intents =
      record {
        intent_id = "i";
        key = "scope";
        payload = "rule";
        status = "APPROVED";
        requested_by = "admin";
        created_at = 1;
        updated_at = 2;
      }
      ∷ [];
  reviews =
      record {
        review_id = "r";
        intent_id = "i";
        reviewer_id = "reviewer";
        decision_outcome = "Approved";
        idempotency_key = "r";
        reviewed_at = 2;
      }
      ∷ [];
}

approved-IsApproved : IsApproved "i" "scope" "rule" approved
unfolding find upper
approved-IsApproved = record {
  intent = record {
    intent_id = "i";
    key = "scope";
    payload = "rule";
    status = "APPROVED";
    requested_by = "admin";
    created_at = 1;
    updated_at = 2;
  };
  found = refl;
  key_is = refl;
  payload_is = refl;
  approved = inl refl;
}

apply_cases_example :
    ((respond decode_role service (AdminCall.post_apply admin "SR-1" "i" 4) approved).1 ≡ approved)
    ⊎ IsChange decode_role admin "i" approved
        (respond decode_role service (AdminCall.post_apply admin "SR-1" "i" 4) approved).1.settings
apply_cases_example = apply_cases decode_role service admin "SR-1" "i" 4 approved

no_settings :
    is_some (
      find
        (λ (r : Setting String). r.setting_id == "SR-1")
        (respond_all decode_role service rejected approved).settings)
    ≡ false
unfolding respond_all respond record_review store_review find upper
no_settings = rw (respond_all, respond, reviewer_granted) refl

approval_stands_example :
    (row : Setting String) × ((respond decode_role service
        (AdminCall.post_apply admin "SR-1" "i" 4)
        (respond_all decode_role service rejected approved)).0
      ≡ Reply.changed "i" row 4)
    × (row.key ≡ "scope")
    × (row.payload ≡ "rule")
approval_stands_example =
    approval_stands "i" "scope" "rule" decode_role service rejected approved admin
      (with_role "admin") "SR-1" 4 approved-IsApproved admin_granted no_settings
