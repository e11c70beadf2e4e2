-- ===== src/Admin/Origins.antt =====
-- Every setting in force was asked for and approved.
use sps_v.Admin.Tables.{Exists-append, Exists-update}
use sps_v.Auth.{Identity}
use sps_v.Common.{
  ℕ, String, ◌≡◌, refl, subst, inl, inr, Bool-cases, Option-cases, List, ◌==◌, string_eq, is_some,
  find, All, All-map, Unique, Exists,
}
use sps_v.Common.Text.{upper}
use sps_v.Admin.{
  Intent, Review, Setting, EventPayload, Store, Service, IntentCreateRequest, ReviewDecisionRequest,
  load_intent, set_status, store_review, create_intent, record_review, is_valid_intent,
  is_valid_review, store_applied,
}

abbrev pub AsksFor : {Payload : Type 0} → String → String → Payload → Intent Payload → Type 0
AsksFor id key payload i = (i.intent_id ≡ id) × (i.key ≡ key) × (i.payload ≡ payload)

abbrev pub Approves : String → String → Review → Type 0
Approves intent_id review_id r =
    (r.review_id ≡ review_id) × (r.intent_id ≡ intent_id) × (upper r.decision_outcome ≡ "APPROVED")

module _ {Payload : Type 0} where
  -- An intent asked for the setting, a review approved the intent, and the audit trail says that it was
  -- applied with this review to this setting.
  pub record Origin (s : Store Payload) (row : Setting Payload) : Type 0 where
    pub intent_id : String
    pub review_id : String
    pub intended : Exists (AsksFor intent_id row.key row.payload) s.intents
    pub approved : Exists (Approves intent_id review_id) s.reviews
    pub logged :
        Exists
          (λ e. e.payload ≡ EventPayload.applied intent_id review_id row.setting_id)
          s.audit_events

  -- One setting for each key, each with its origin.
  pub record IsSound (s : Store Payload) : Type 0 where
    pub keys : Unique (λ r. r.key) s.settings
    pub origins : All (Origin s) s.settings

  -- What a call can do to the tables other than the settings.
  pub record Grows (s t : Store Payload) : Type 0 where
    pub intents :
        (id key : String) (payload : Payload)
        → Exists (AsksFor id key payload) s.intents
        → Exists (AsksFor id key payload) t.intents
    pub reviews :
        (id review_id : String)
        → Exists (Approves id review_id) s.reviews
        → Exists (Approves id review_id) t.reviews
    pub events :
        (p : EventPayload)
        → Exists (λ e. e.payload ≡ p) s.audit_events
        → Exists (λ e. e.payload ≡ p) t.audit_events

  Grows-refl : (s : Store Payload) → Grows s s
  Grows-refl s = record {
    intents = λ id key payload h. h;
    reviews = λ id review_id h. h;
    events = λ p h. h;
  }

  pub Grows-Origin :
      (s t : Store Payload) → Grows s t → (row : Setting Payload) → Origin s row → Origin t row
  Grows-Origin s t g row h = record {
    intent_id = h.intent_id;
    review_id = h.review_id;
    intended = g.intents h.intent_id row.key row.payload h.intended;
    approved = g.reviews h.intent_id h.review_id h.approved;
    logged = g.events (EventPayload.applied h.intent_id h.review_id row.setting_id) h.logged;
  }

  Grows-IsSound :
      (s t : Store Payload) → Grows s t → s.settings ≡ t.settings → IsSound s → IsSound t
  Grows-IsSound s t g same sound = record {
    keys = subst (Unique (λ r. r.key)) same sound.keys;
    origins =
        subst (All (Origin t)) same
          (All-map (Origin s) (Origin t) (Grows-Origin s t g) s.settings sound.origins);
  }

  set_status-AsksFor :
      (id status : String) (now : ℕ) (other key : String) (payload : Payload)
      (intents : List (Intent Payload))
      → Exists (AsksFor other key payload) intents
      → Exists (AsksFor other key payload) (set_status id status now intents)
  set_status-AsksFor id status now other key payload intents h =
      Exists-update (AsksFor other key payload) (λ i. i.intent_id == id)
        (λ i. record i { status = status; updated_at = now }) (λ i asks. asks) intents h

  store_review-Grows :
      (service : Service Payload) (identity : Identity) (req : ReviewDecisionRequest) (now : ℕ)
      (s : Store Payload)
      → Grows s (store_review service identity req now s)
  unfolding store_review
  store_review-Grows service identity req now s = record {
    intents = λ id key payload h.
        set_status-AsksFor req.intent_id (upper req.decision_outcome) now id key payload s.intents
          h;
    reviews = λ id review_id h. Exists-append (Approves id review_id) s.reviews _ h;
    events = λ p h. Exists-append (λ e. e.payload ≡ p) s.audit_events _ h;
  }

  store_review-settings :
      (service : Service Payload) (identity : Identity) (req : ReviewDecisionRequest) (now : ℕ)
      (s : Store Payload)
      → s.settings ≡ (store_review service identity req now s).settings
  unfolding store_review
  store_review-settings service identity req now s = refl

  pub store_applied-Grows :
      (service : Service Payload) (identity : Identity) (intent_id : String) (review : Review)
      (now : ℕ) (row : Setting Payload) (rows : List (Setting Payload)) (s : Store Payload)
      → Grows s (store_applied service identity intent_id review now row rows s)
  unfolding store_applied
  store_applied-Grows service identity intent_id review now row rows s = record {
    intents =
        λ id key payload h. set_status-AsksFor intent_id "APPLIED" now id key payload s.intents h;
    reviews = λ id review_id h. h;
    events = λ p h. Exists-append (λ e. e.payload ≡ p) s.audit_events _ h;
  }

  pub create_intent-IsSound :
      (service : Service Payload) (identity : Identity) (req : IntentCreateRequest Payload)
      (now : ℕ) (s : Store Payload)
      → IsSound s
      → IsSound (create_intent service identity req now s).1
  unfolding create_intent
  create_intent-IsSound service identity req now s sound =
      elim (Bool-cases (is_valid_intent service req)) [
        | inr bad ↦ rw bad sound
        | inl valid ↦ elim (Bool-cases (is_some (load_intent s req.intent_id))) [
          | inl old ↦ rw (valid, old) sound
          | inr new ↦
              rw (valid, new)
                (Grows-IsSound s _
                  (record {
                    intents =
                        λ id key payload h. Exists-append (AsksFor id key payload) s.intents _ h;
                    reviews = λ id review_id h. h;
                    events = λ p h. Exists-append (λ e. e.payload ≡ p) s.audit_events _ h;
                  })
                  refl sound)
        ]
      ]

  pub record_review-IsSound :
      (service : Service Payload) (identity : Identity) (req : ReviewDecisionRequest) (now : ℕ)
      (s : Store Payload)
      → IsSound s
      → IsSound (record_review service identity req now s).1
  unfolding record_review
  record_review-IsSound service identity req now s sound = elim (Bool-cases (is_valid_review req)) [
    | inr bad ↦ rw bad sound
    | inl valid ↦ elim (Option-cases (load_intent s req.intent_id)) [
      | inl none_there ↦ rw (valid, none_there) sound
      | inr (intent, found) ↦
          elim (Option-cases (find (λ r. r.idempotency_key == req.idempotency_key) s.reviews)) [
            | inr (old, same_key) ↦ rw (valid, found, same_key) sound
            | inl new_key ↦
                elim (Bool-cases (is_some (find (λ r. r.review_id == req.review_id) s.reviews))) [
                  | inl old ↦ rw (valid, found, new_key, old) sound
                  | inr new ↦
                      rw (valid, found, new_key, new)
                        (Grows-IsSound s _ (store_review-Grows service identity req now s)
                          (store_review-settings service identity req now s) sound)
                ]
          ]
    ]
  ]
