-- ===== src/Admin/Approved.antt =====
-- Every setting in force was asked for and approved.
use sps_v.Admin.Origins.{
  Approves, AsksFor, Origin, IsSound, Grows-Origin, store_applied-Grows, create_intent-IsSound,
  record_review-IsSound,
}
use sps_v.Admin.Tables.{All-update, Unique-update, Exists-latest_row, Exists-find_row}
use sps_v.Auth.{Decoded, Identity, Role, require_roles, require_reviewer_only}
use sps_v.Auth.Grants.{Access-cases}
use sps_v.Common.{
  ℕ, String, ◌≡◌, refl, sym, ap, subst, inl, inr, Bool-cases, some, Option-cases, List, [], ◌∷◌,
  ◌++◌, ◌==◌, string_eq, eq_iff, is_some, find, update, All, All-map, All-append, Unique,
  Unique-append, Exists, Exists-map, Exists-last, find-satisfies, arith,
}
use sps_v.Common.Text.{upper}
use sps_v.Admin.Calls.{AdminCall, respond, respond_all}
use sps_v.Admin.{
  Intent, Review, Setting, Store, Service, load_intent, is_approval, require_approved_review,
  new_setting, reset, upsert, store_applied, apply_intent,
}

module _ {Payload : Type 0} where
  abbrev HasPayload : Intent Payload → Setting Payload → Type 0
  HasPayload intent row = (row.key ≡ intent.key) × (row.payload ≡ intent.payload)

  -- What the upsert gives, and what it keeps of the other rows.
  upsert_cases :
      (new_id : String) (intent : Intent Payload) (now : ℕ) (old rows : List (Setting Payload))
      (row : Setting Payload) (P Q : Setting Payload → Type 0)
      → upsert new_id intent now old ≡ some (row, rows)
      → Unique (λ r. r.key) old
      → All P old
      → ((x : Setting Payload) → P x → Q x)
      → (HasPayload intent row → Q row)
      → All Q rows × Unique (λ r. r.key) rows
  unfolding upsert
  upsert_cases new_id intent now old rows row P Q e unique h keeps new =
      elim (Option-cases (find (λ r. r.key == intent.key) old)) [
        | inr (r, found) ↦
            let row_is : reset intent now r ≡ row = ground arith in
            let rows_are : update_of old ≡ rows = ground arith in
            let same_key : r.key ≡ intent.key =
              let k = find-satisfies (λ r. r.key == intent.key) old r found in
              ground (arith, eq_iff r.key intent.key) in
            subst (λ t. All Q t × Unique (λ r. r.key) t) rows_are
              (
                All-update (λ r. r.key) intent.key (reset intent now) P Q keeps old r unique found
                    (subst Q (sym row_is) (new (subst (HasPayload intent) row_is (same_key, refl))))
                    h,
                Unique-update (λ r. r.key) intent.key (reset intent now) (λ x. refl) old unique,
              )
        | inl missing ↦ elim (Bool-cases (is_some (find (λ r. r.setting_id == new_id) old))) [
          | inl clash ↦ absurd (ground arith)
          | inr free ↦
              let row_is : new_setting new_id intent now ≡ row = ground arith in
              let rows_are : old ++ new_setting new_id intent now ∷ [] ≡ rows = ground arith in
              subst (λ t. All Q t × Unique (λ r. r.key) t) rows_are
                (
                  All-append Q old (new_setting new_id intent now) (All-map P Q keeps old h)
                      (subst Q (sym row_is) (new (subst (HasPayload intent) row_is (refl, refl)))),
                  Unique-append (λ r. r.key) old (new_setting new_id intent now) unique
                      (ap is_some missing),
                )
        ]
      ]
    where
      update_of : List (Setting Payload) → List (Setting Payload)
      update_of xs = update (λ r. r.key == intent.key) (reset intent now) xs

  pub approved_of :
      (s : Store Payload) (intent_id : String) (review : Review)
      → require_approved_review s intent_id ≡ some review
      → Exists (Approves intent_id review.review_id) s.reviews
  unfolding require_approved_review
  approved_of s intent_id review e =
      Exists-map
        (λ r (is, approves). (
          ap (λ x. x.review_id) is,
          ground (arith, eq_iff r.intent_id intent_id),
          ground (arith, eq_iff (upper r.decision_outcome) "APPROVED"),
        ))
        s.reviews
        (Exists-latest_row (is_approval intent_id) (λ r. r.reviewed_at) s.reviews review e)

  intended_of :
      (s : Store Payload) (intent_id : String) (intent : Intent Payload)
      → load_intent s intent_id ≡ some intent
      → Exists (AsksFor intent_id intent.key intent.payload) s.intents
  intended_of s intent_id intent e =
      Exists-map
        (λ i (is, named). (
          ground (arith, eq_iff i.intent_id intent_id),
          ap (λ x. x.key) is,
          ap (λ x. x.payload) is,
        ))
        s.intents (Exists-find_row (λ i. i.intent_id == intent_id) s.intents intent e)

  -- What an apply has found, and what it makes of the settings.
  applied-IsSound :
      (service : Service Payload) (identity : Identity) (new_id intent_id : String) (now : ℕ)
      (s : Store Payload) (intent : Intent Payload) (review : Review) (row : Setting Payload)
      (rows : List (Setting Payload))
      → load_intent s intent_id ≡ some intent
      → require_approved_review s intent_id ≡ some review
      → upsert new_id intent now s.settings ≡ some (row, rows)
      → IsSound s
      → IsSound (store_applied service identity intent_id review now row rows s)
  unfolding store_applied
  applied-IsSound service identity new_id intent_id now s intent review row rows found approved made
        sound =
      let t = store_applied service identity intent_id review now row rows s in
      let g = store_applied-Grows service identity intent_id review now row rows s in
      let (origins, keys) =
        upsert_cases new_id intent now s.settings rows row (Origin s) (Origin t) made sound.keys
          sound.origins (Grows-Origin s t g)
          (λ (same_key, same_payload). record {
            intent_id = intent_id;
            review_id = review.review_id;
            intended =
                g.intents intent_id row.key row.payload
                  (rw (same_key, same_payload) (intended_of s intent_id intent found));
            approved =
                g.reviews intent_id review.review_id (approved_of s intent_id review approved);
            logged = Exists-last _ s.audit_events _ refl;
          }) in
      record { keys = keys; origins = origins }

  apply_intent-IsSound :
      (service : Service Payload) (identity : Identity) (new_id intent_id : String) (now : ℕ)
      (s : Store Payload)
      → IsSound s
      → IsSound (apply_intent service identity new_id intent_id now s).1
  unfolding apply_intent
  apply_intent-IsSound service identity new_id intent_id now s sound =
      elim (Option-cases (load_intent s intent_id)) [
        | inl none_there ↦ rw (apply_intent, none_there) sound
        | inr (intent, found) ↦ elim (Option-cases (require_approved_review s intent_id)) [
          | inl unapproved ↦ rw (apply_intent, found, unapproved) sound
          | inr (review, approved) ↦ elim (Option-cases (upsert new_id intent now s.settings)) [
            | inl clash ↦ rw (apply_intent, found, approved, clash) sound
            | inr ((row, rows), made) ↦
                rw (apply_intent, found, approved, made)
                  (applied-IsSound service identity new_id intent_id now s intent review row rows
                    found approved made sound)
          ]
        ]
      ]

  respond-IsSound :
      (decode : String → Decoded) (service : Service Payload) (call : AdminCall Payload)
      (s : Store Payload)
      → IsSound s
      → IsSound (respond decode service call s).1
  unfolding respond
  respond-IsSound decode service (AdminCall.post_intent auth req now) s sound =
      elim (Access-cases (require_roles decode (Role.admin ∷ []) auth)) [
        | inl (r, e) ↦ rw e sound
        | inr (i, e) ↦ rw e (create_intent-IsSound service i req now s sound)
      ]
  respond-IsSound decode service (AdminCall.post_review auth req now) s sound =
      elim (Access-cases (require_reviewer_only decode auth)) [
        | inl (r, e) ↦ rw e sound
        | inr (i, e) ↦ rw e (record_review-IsSound service i req now s sound)
      ]
  respond-IsSound decode service (AdminCall.post_apply auth new_id intent_id now) s sound =
      elim (Access-cases (require_roles decode (Role.admin ∷ []) auth)) [
        | inl (r, e) ↦ rw e sound
        | inr (i, e) ↦ rw e (apply_intent-IsSound service i new_id intent_id now s sound)
      ]

  -- After any list of calls, each key has at most one setting, and every setting was asked for by an
  -- intent of its key and payload that a review approves, as the audit trail says; if it was so before.
  pub respond_all-IsSound :
      (decode : String → Decoded) (service : Service Payload) (calls : List (AdminCall Payload))
      (s : Store Payload)
      → IsSound s
      → IsSound (respond_all decode service calls s)
  unfolding respond_all
  respond_all-IsSound decode service [] s sound = sound
  respond_all-IsSound decode service (c ∷ cs) s sound =
      respond_all-IsSound decode service cs (respond decode service c s).1
        (respond-IsSound decode service c s sound)
