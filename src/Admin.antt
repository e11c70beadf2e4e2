-- ===== src/Admin.antt =====
-- The change workflows of the admin portal: src/sps/services/admin_portal_support.py,
-- admin_source_rules.py and admin_incentive_programs.py, and the routes of the same names in
-- src/sps/api/routes/. The three differ in the names of their columns and actions and in what an intent
-- asks for, which is a parameter. Transactions are taken one at a time.
mod Rows
pub mod Routes
pub mod Calls
mod Origins
pub mod Approved
mod Tables
mod Settings
mod Stands
mod Examples
pub use Rows.*
use Prim.Native.String.{◌++◌}
use mathlib.Core.List.{◌++◌ as ◌++ᴸ◌}
use sps_v.Auth.{Identity}
use sps_v.Common.{
  ℕ, String, Bool, true, false, not, ◌&&◌, ◌||◌, Option, none, some, List, [], ◌∷◌, ◌==◌, string_eq,
  if◌then◌else◌, is_some, find, filter, update, latest,
}
use sps_v.Common.Text.{upper}

abbrev is_given : String → Bool
is_given s = not (s == "")

module _ {Payload : Type 0} where
  pub is_valid_intent : Service Payload → IntentCreateRequest Payload → Bool
  is_valid_intent service req =
      is_given req.intent_id
      && (is_given req.key && (service.is_valid_payload req.payload && is_given req.requested_by))

  abbrev pub intent_row : IntentCreateRequest Payload → ℕ → Intent Payload
  intent_row req now = record {
    intent_id = req.intent_id;
    key = req.key;
    payload = req.payload;
    status = "PENDING_REVIEW";
    requested_by = req.requested_by;
    created_at = now;
    updated_at = now;
  }

  -- `db.get` of an intent, and `load_intent`, whose error is `none`.
  abbrev pub load_intent : Store Payload → String → Option (Intent Payload)
  load_intent s id = find (λ i. i.intent_id == id) s.intents

  -- `create_admin_..._intent`, of a caller that has passed the guard.
  pub create_intent :
      Service Payload
      → Identity
      → IntentCreateRequest Payload
      → ℕ
      → Store Payload
      → Reply Payload × Store Payload
  create_intent service identity req now s =
      if not (is_valid_intent service req)
      then (Reply.validation_failed, s)
      else if is_some (load_intent s req.intent_id)
      then (Reply.intent_conflict req.intent_id, s)
      else (
        Reply.created (intent_row req now),
        record s {
          intents = s.intents ++ᴸ intent_row req now ∷ [];
          audit_events =
              s.audit_events
              ++ᴸ record {
                action = service.prefix ++ "_INTENT_CREATED";
                actor_type = "admin";
                actor_id = identity.subject;
                correlation_id = req.intent_id;
                request_id = req.intent_id;
                payload = EventPayload.intent_created req.intent_id;
                occurred_at = now;
              }
                ∷ [];
        },
      )

abbrev pub is_valid_review : ReviewDecisionRequest → Bool
is_valid_review req =
    is_given req.review_id
    && (is_given req.intent_id
        && (is_given req.reviewer_id
            && (is_given req.decision_outcome && is_given req.idempotency_key)))

abbrev pub review_row : ReviewDecisionRequest → ℕ → Review
review_row req now = record {
  review_id = req.review_id;
  intent_id = req.intent_id;
  reviewer_id = req.reviewer_id;
  decision_outcome = req.decision_outcome;
  idempotency_key = req.idempotency_key;
  reviewed_at = now;
}

-- The filter of `require_approved_review`.
abbrev pub is_approval : String → Review → Bool
is_approval id r = r.intent_id == id && upper r.decision_outcome == "APPROVED"

module _ {Payload : Type 0} where
  -- `intent.status = ...; intent.updated_at = now`
  abbrev pub set_status : String → String → ℕ → List (Intent Payload) → List (Intent Payload)
  set_status id status now intents =
      update (λ i. i.intent_id == id) (λ i. record i { status = status; updated_at = now }) intents

  pub store_review :
      Service Payload → Identity → ReviewDecisionRequest → ℕ → Store Payload → Store Payload
  store_review service identity req now s = record s {
    intents = set_status req.intent_id (upper req.decision_outcome) now s.intents;
    reviews = s.reviews ++ᴸ review_row req now ∷ [];
    audit_events =
        s.audit_events
        ++ᴸ record {
          action = service.prefix ++ "_REVIEW_RECORDED";
          actor_type = "reviewer";
          actor_id = identity.subject;
          correlation_id = req.intent_id;
          request_id = req.intent_id ++ (":" ++ req.review_id);
          payload =
              EventPayload.review_recorded req.intent_id req.review_id req.decision_outcome
                req.idempotency_key;
          occurred_at = now;
        }
          ∷ [];
  }

  -- `record_admin_..._review`, of a caller that has passed the guard.
  pub record_review :
      Service Payload
      → Identity
      → ReviewDecisionRequest
      → ℕ
      → Store Payload
      → Reply Payload × Store Payload
  record_review service identity req now s =
      if not (is_valid_review req)
      then (Reply.validation_failed, s)
      else elim (load_intent s req.intent_id) [
        | none ↦ (Reply.intent_not_found req.intent_id, s)
        | some intent ↦ elim (find (λ r. r.idempotency_key == req.idempotency_key) s.reviews) [
          | some old ↦ (Reply.review_idempotency_conflict old.review_id req.idempotency_key, s)
          | none ↦
              if is_some (find (λ r. r.review_id == req.review_id) s.reviews)
              then (Reply.review_conflict req.review_id, s)
              else (Reply.recorded (review_row req now), store_review service identity req now s)
        ]
      ]

  -- `require_approved_review`; `none` is its error.
  pub require_approved_review : Store Payload → String → Option Review
  require_approved_review s id = latest (λ r. r.reviewed_at) (filter (is_approval id) s.reviews)

  abbrev pub new_setting : String → Intent Payload → ℕ → Setting Payload
  new_setting id intent now = record {
    setting_id = id;
    key = intent.key;
    payload = intent.payload;
    created_at = now;
    updated_at = now;
  }

  abbrev pub reset : Intent Payload → ℕ → Setting Payload → Setting Payload
  reset intent now r = record r { payload = intent.payload; updated_at = now }

  -- `upsert_...`: the row, and the table with it; a clash of the new identifier is `none`.
  pub upsert :
      String
      → Intent Payload
      → ℕ
      → List (Setting Payload)
      → Option (Setting Payload × List (Setting Payload))
  upsert new_id intent now rows = elim (find (λ r. r.key == intent.key) rows) [
    | some r ↦ some (reset intent now r, update (λ r. r.key == intent.key) (reset intent now) rows)
    | none ↦
        if is_some (find (λ r. r.setting_id == new_id) rows)
        then none
        else some (new_setting new_id intent now, rows ++ᴸ new_setting new_id intent now ∷ [])
  ]

  pub store_applied :
      Service Payload
      → Identity
      → String
      → Review
      → ℕ
      → Setting Payload
      → List (Setting Payload)
      → Store Payload
      → Store Payload
  store_applied service identity intent_id review now row rows s = record s {
    intents = set_status intent_id "APPLIED" now s.intents;
    settings = rows;
    audit_events =
        s.audit_events
        ++ᴸ record {
          action = service.prefix ++ "_APPLIED";
          actor_type = "admin";
          actor_id = identity.subject;
          correlation_id = intent_id;
          request_id = intent_id ++ ":apply";
          payload = EventPayload.applied intent_id review.review_id row.setting_id;
          occurred_at = now;
        }
          ∷ [];
  }

  -- `apply_admin_..._intent`, of a caller that has passed the guard; `new_id` is the ULID that a new
  -- setting is given.
  pub apply_intent :
      Service Payload
      → Identity
      → (new_id intent_id : String) → ℕ
      → Store Payload
      → Reply Payload × Store Payload
  apply_intent service identity new_id intent_id now s = elim (load_intent s intent_id) [
    | none ↦ (Reply.intent_not_found intent_id, s)
    | some intent ↦ elim (require_approved_review s intent_id) [
      | none ↦ (Reply.review_required intent_id, s)
      | some review ↦ elim (upsert new_id intent now s.settings) [
        | none ↦ (Reply.internal_error, s)
        | some (row, rows) ↦ (
          Reply.changed intent_id row now,
          store_applied service identity intent_id review now row rows s,
        )
      ]
    ]
  ]
