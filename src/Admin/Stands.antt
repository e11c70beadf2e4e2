-- ===== src/Admin/Stands.antt =====
-- An approval is never withdrawn.
use sps_v.Admin.Tables.{Exists-append}
use sps_v.Auth.{Access, Decoded, Identity, Role, require_roles, require_reviewer_only}
use sps_v.Auth.Grants.{Access-cases}
use sps_v.Common.{
  ℕ, String, ◌≡◌, refl, ◌∙◌, ap, inl, inr, true, false, Bool-cases, Option, some, Option-cases,
  List, [], ◌∷◌, ◌==◌, string_eq, eq_iff, is_some, find, update, Exists, Exists-map,
  latest_of_Exists, find-append_old, find-satisfies, arith,
}
use sps_v.Common.Text.{upper}
use sps_v.Admin.Calls.{AdminCall, respond, respond_all}
use sps_v.Admin.{
  Intent, Setting, Store, Service, IntentCreateRequest, ReviewDecisionRequest, Reply, load_intent,
  is_approval, set_status, store_review, create_intent, record_review, is_valid_intent,
  is_valid_review, require_approved_review, new_setting, reset, upsert, store_applied, apply_intent,
}

module _ {Payload : Type 0} where
  -- The intent is there with this key and payload, and approved.
  pub record IsApproved (id key : String) (payload : Payload) (s : Store Payload) : Type 0 where
    pub intent : Intent Payload
    pub found : load_intent s id ≡ some intent
    pub key_is : intent.key ≡ key
    pub payload_is : intent.payload ≡ payload
    pub approved : Exists (λ r. is_approval id r ≡ true) s.reviews

  module _ (id key : String) (payload : Payload) where
    set_status-load :
        (other status : String) (now : ℕ) (intents : List (Intent Payload)) (i : Intent Payload)
        → find (λ x. x.intent_id == id) intents ≡ some i
        → (j : Intent Payload) × (find
              (λ x. x.intent_id == id)
              (set_status other status now intents)
            ≡ some j)
          × (j.key ≡ i.key)
          × (j.payload ≡ i.payload)
    unfolding update find
    set_status-load other status now [] i e = absurd (cc)
    set_status-load other status now (x ∷ xs) i e = elim (Bool-cases (x.intent_id == id)) [
      | inl here ↦
          let is : x ≡ i = ground arith in
          elim (Bool-cases (x.intent_id == other)) [
            | inl set ↦ (
              record x { status = status; updated_at = now },
              ground arith,
              ap (λ y. y.key) is,
              ap (λ y. y.payload) is,
            )
            | inr kept ↦ (x, ground arith, ap (λ y. y.key) is, ap (λ y. y.payload) is)
          ]
      | inr past ↦
          let (j, found, k, p) = set_status-load other status now xs i (ground arith) in
          elim (Bool-cases (x.intent_id == other)) [
            | inl set ↦ (j, ground arith, k, p)
            | inr kept ↦ (j, ground arith, k, p)
          ]
    ]

    -- What a new status and new reviews leave of an approval.
    status-IsApproved :
        (other status : String) (now : ℕ) (s t : Store Payload)
        → t.intents ≡ set_status other status now s.intents
        → (Exists (λ r. is_approval id r ≡ true) s.reviews
            → Exists (λ r. is_approval id r ≡ true) t.reviews)
        → IsApproved id key payload s
        → IsApproved id key payload t
    status-IsApproved other status now s t is keeps h =
        let (j, found, k, p) = set_status-load other status now s.intents h.intent h.found in
        record {
          intent = j;
          found = ap (λ xs. find (λ x. x.intent_id == id) xs) is ∙ found;
          key_is = k ∙ h.key_is;
          payload_is = p ∙ h.payload_is;
          approved = keeps h.approved;
        }

    create_intent-IsApproved :
        (service : Service Payload) (identity : Identity) (req : IntentCreateRequest Payload)
        (now : ℕ) (s : Store Payload)
        → IsApproved id key payload s
        → IsApproved id key payload (create_intent service identity req now s).1
    unfolding create_intent
    create_intent-IsApproved service identity req now s h =
        elim (Bool-cases (is_valid_intent service req)) [
          | inr bad ↦ rw bad h
          | inl valid ↦ elim (Bool-cases (is_some (load_intent s req.intent_id))) [
            | inl old ↦ rw (valid, old) h
            | inr new ↦
                rw (valid, new)
                  (record {
                    intent = h.intent;
                    found = find-append_old (λ i. i.intent_id == id) s.intents _ h.intent h.found;
                    key_is = h.key_is;
                    payload_is = h.payload_is;
                    approved = h.approved;
                  })
          ]
        ]

    record_review-IsApproved :
        (service : Service Payload) (identity : Identity) (req : ReviewDecisionRequest) (now : ℕ)
        (s : Store Payload)
        → IsApproved id key payload s
        → IsApproved id key payload (record_review service identity req now s).1
    unfolding record_review store_review
    record_review-IsApproved service identity req now s h =
        elim (Bool-cases (is_valid_review req)) [
          | inr bad ↦ rw bad h
          | inl valid ↦ elim (Option-cases (load_intent s req.intent_id)) [
            | inl none_there ↦ rw (valid, none_there) h
            | inr (intent, found) ↦
                elim (Option-cases
                  (find (λ r. r.idempotency_key == req.idempotency_key) s.reviews)) [
                    | inr (old, same_key) ↦ rw (valid, found, same_key) h
                    | inl new_key ↦
                        elim (Bool-cases
                          (is_some (find (λ r. r.review_id == req.review_id) s.reviews))) [
                            | inl old ↦ rw (valid, found, new_key, old) h
                            | inr new ↦
                                rw (valid, found, new_key, new)
                                  (status-IsApproved req.intent_id (upper req.decision_outcome) now
                                    s (store_review service identity req now s) refl
                                    (Exists-append (λ r. is_approval id r ≡ true) s.reviews _) h)
                          ]
                  ]
          ]
        ]

    apply_intent-IsApproved :
        (service : Service Payload) (identity : Identity) (new_id intent_id : String) (now : ℕ)
        (s : Store Payload)
        → IsApproved id key payload s
        → IsApproved id key payload (apply_intent service identity new_id intent_id now s).1
    unfolding apply_intent store_applied
    apply_intent-IsApproved service identity new_id intent_id now s h =
        elim (Option-cases (load_intent s intent_id)) [
          | inl none_there ↦ rw (apply_intent, none_there) h
          | inr (intent, found) ↦ elim (Option-cases (require_approved_review s intent_id)) [
            | inl unapproved ↦ rw (apply_intent, found, unapproved) h
            | inr (review, approved) ↦ elim (Option-cases (upsert new_id intent now s.settings)) [
              | inl clash ↦ rw (apply_intent, found, approved, clash) h
              | inr ((row, rows), made) ↦
                  rw (apply_intent, found, approved, made)
                    (status-IsApproved intent_id "APPLIED" now s
                      (store_applied service identity intent_id review now row rows s) refl (λ a. a)
                      h)
            ]
          ]
        ]

    respond-IsApproved :
        (decode : String → Decoded) (service : Service Payload) (call : AdminCall Payload)
        (s : Store Payload)
        → IsApproved id key payload s
        → IsApproved id key payload (respond decode service call s).1
    unfolding respond
    respond-IsApproved decode service (AdminCall.post_intent auth req now) s h =
        elim (Access-cases (require_roles decode (Role.admin ∷ []) auth)) [
          | inl (r, e) ↦ rw e h
          | inr (i, e) ↦ rw e (create_intent-IsApproved service i req now s h)
        ]
    respond-IsApproved decode service (AdminCall.post_review auth req now) s h =
        elim (Access-cases (require_reviewer_only decode auth)) [
          | inl (r, e) ↦ rw e h
          | inr (i, e) ↦ rw e (record_review-IsApproved service i req now s h)
        ]
    respond-IsApproved decode service (AdminCall.post_apply auth new_id intent_id now) s h =
        elim (Access-cases (require_roles decode (Role.admin ∷ []) auth)) [
          | inl (r, e) ↦ rw e h
          | inr (i, e) ↦ rw e (apply_intent-IsApproved service i new_id intent_id now s h)
        ]

    pub respond_all-IsApproved :
        (decode : String → Decoded) (service : Service Payload) (calls : List (AdminCall Payload))
        (s : Store Payload)
        → IsApproved id key payload s
        → IsApproved id key payload (respond_all decode service calls s)
    unfolding respond_all
    respond_all-IsApproved decode service [] s h = h
    respond_all-IsApproved decode service (c ∷ cs) s h =
        respond_all-IsApproved decode service cs (respond decode service c s).1
          (respond-IsApproved decode service c s h)

    -- Once an intent is there and approved, an apply of it by an admin, with an identifier that no
    -- setting has, answers with the intent's payload as the setting of its key, whatever has been asked
    -- for in between, rejecting reviews included.
    pub approval_stands :
        (decode : String → Decoded) (service : Service Payload) (calls : List (AdminCall Payload))
        (s : Store Payload) (auth : Option String) (admin : Identity) (new_id : String) (now : ℕ)
        → IsApproved id key payload s
        → require_roles decode (Role.admin ∷ []) auth ≡ Access.granted admin
        → is_some (find (λ r. r.setting_id == new_id) (respond_all decode service calls s).settings)
          ≡ false
        → (row : Setting Payload) × ((respond decode service
              (AdminCall.post_apply auth new_id id now)
              (respond_all decode service calls s)).0
            ≡ Reply.changed id row now)
          × (row.key ≡ key)
          × (row.payload ≡ payload)
    unfolding respond apply_intent require_approved_review upsert
    approval_stands decode service calls s auth admin new_id now h granted free =
        let t = respond_all decode service calls s in
        let g = respond_all-IsApproved decode service calls s h in
        let (review, approved, newer) =
          latest_of_Exists (is_approval id) (λ r. r.reviewed_at) 0 t.reviews
            (Exists-map (λ r e. (e, omega arith)) t.reviews g.approved) in
        let found = g.found in
        elim (Option-cases (find (λ r. r.key == g.intent.key) t.settings)) [
          | inl missing ↦ (
            new_setting new_id g.intent now,
            rw (granted, apply_intent, found, approved, missing, free) refl,
            g.key_is,
            g.payload_is,
          )
          | inr (old, there) ↦ (
            reset g.intent now old,
            rw (granted, apply_intent, found, approved, there) refl,
            let k = find-satisfies (λ r. r.key == g.intent.key) t.settings old there in
                ground (arith, eq_iff old.key g.intent.key) ∙ g.key_is,
            g.payload_is,
          )
        ]
