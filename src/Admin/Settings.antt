-- ===== src/Admin/Settings.antt =====
-- What an apply changes, and who can make it.
use sps_v.Admin.Origins.{Approves}
use sps_v.Admin.Approved.{approved_of}
use sps_v.Auth.{Access, Decoded, Identity, Role, require_roles, require_identity}
use sps_v.Auth.Grants.{Access-cases, HasRole, require_roles_for_iff}
use sps_v.Common.{
  ℕ, String, ◌≡◌, ◌⊎◌, refl, subst, inl, inr, false, Bool-cases, Option, none, some, Option-cases,
  List, [], ◌∷◌, ◌++◌, ◌==◌, string_eq, eq_iff, if◌then◌else◌, is_some, find, update, Exists, arith,
}
use sps_v.Admin.Calls.{AdminCall, respond}
use sps_v.Admin.{
  Intent, Review, Setting, Store, Service, load_intent, require_approved_review, new_setting, reset,
  upsert, store_applied, apply_intent,
}

module _ {Payload : Type 0} where
  -- What is set for a key.
  pub setting_of : List (Setting Payload) → String → Option Payload
  setting_of [] k = none
  setting_of (r ∷ rs) k = let rest = setting_of rs k in if r.key == k then some r.payload else rest

  setting_of-append :
      (rows : List (Setting Payload)) (x : Setting Payload) (k : String)
      → find (λ r. r.key == x.key) rows ≡ none
      → setting_of (rows ++ x ∷ []) k ≡ (if x.key == k then some x.payload else setting_of rows k)
  unfolding setting_of find
  setting_of-append [] x k e = refl
  setting_of-append (r ∷ rs) x k e =
      ground (arith, setting_of-append rs x k, eq_iff r.key k, eq_iff x.key k, eq_iff r.key x.key)

  setting_of-missing :
      (rows : List (Setting Payload)) (key k : String) (f : Setting Payload → Setting Payload)
      → ((x : Setting Payload) → (f x).key ≡ x.key)
      → (key == k) ≡ false
      → setting_of (update (λ r. r.key == key) f rows) k ≡ setting_of rows k
  unfolding setting_of update
  setting_of-missing [] key k f same other = refl
  setting_of-missing (r ∷ rs) key k f same other = ground (
    arith,
    same r,
    setting_of-missing rs key k f same,
    eq_iff r.key k,
    eq_iff r.key key,
    eq_iff key k,
  )

  setting_of-reset :
      (intent : Intent Payload) (now : ℕ) (rows : List (Setting Payload)) (old : Setting Payload)
      → find (λ r. r.key == intent.key) rows ≡ some old
      → setting_of (update (λ r. r.key == intent.key) (reset intent now) rows) intent.key
        ≡ some intent.payload
  unfolding setting_of update find
  setting_of-reset intent now [] old e = absurd (cc)
  setting_of-reset intent now (r ∷ rs) old e = ground (arith, setting_of-reset intent now rs old)

  -- The settings after an upsert are those before it, with the intent's payload for its key.
  upsert-setting_of :
      (new_id : String) (intent : Intent Payload) (now : ℕ) (old rows : List (Setting Payload))
      (row : Setting Payload) (k : String)
      → upsert new_id intent now old ≡ some (row, rows)
      → setting_of rows k ≡ (if intent.key == k then some intent.payload else setting_of old k)
  unfolding upsert
  upsert-setting_of new_id intent now old rows row k e =
      elim (Option-cases (find (λ r. r.key == intent.key) old)) [
        | inr (r, found) ↦
            let rows_are : update (λ r. r.key == intent.key) (reset intent now) old ≡ rows =
              ground arith in
            elim (Bool-cases (intent.key == k)) [
              | inl same ↦
                  let k_is : intent.key ≡ k = ground (arith, eq_iff intent.key k) in
                  let set = setting_of-reset intent now old r found in
                  let at_k : setting_of rows k ≡ some intent.payload =
                    subst (λ t. setting_of rows t ≡ some intent.payload) k_is
                      (subst (λ t. setting_of t intent.key ≡ some intent.payload) rows_are set) in
                  rw same at_k
              | inr other ↦
                  let kept =
                    setting_of-missing old intent.key k (reset intent now) (λ x. refl) other in
                  rw other (subst (λ t. setting_of t k ≡ setting_of old k) rows_are kept)
            ]
        | inl missing ↦ elim (Bool-cases (is_some (find (λ r. r.setting_id == new_id) old))) [
          | inl clash ↦ absurd (ground arith)
          | inr free ↦
              let rows_are : old ++ new_setting new_id intent now ∷ [] ≡ rows = ground arith in
              subst
                (λ t.
                  setting_of t k
                  ≡ (if intent.key == k then some intent.payload else setting_of old k))
                rows_are (setting_of-append old (new_setting new_id intent now) k missing)
        ]
      ]

  -- The change that an intent makes to the settings, by an admin and with an approval.
  pub record IsChange (decode : String → Decoded) (auth : Option String) (intent_id : String)
      (s : Store Payload) (after : List (Setting Payload)) : Type 0 where
    pub admin : Identity
    pub granted : require_identity decode auth ≡ Access.granted admin
    pub role : HasRole admin Role.admin
    pub intent : Intent Payload
    pub found : load_intent s intent_id ≡ some intent
    pub review : Review
    pub approved : Exists (Approves intent_id review.review_id) s.reviews
    pub sets :
        (k : String)
        → setting_of after k
          ≡ (if intent.key == k then some intent.payload else setting_of s.settings k)

  -- An apply either leaves the settings as they are, or it is the call of an admin, its intent is there
  -- and approved by a review, and exactly the setting of the intent's key becomes the intent's payload.
  pub apply_cases :
      (decode : String → Decoded) (service : Service Payload) (auth : Option String)
      (new_id intent_id : String) (now : ℕ) (s : Store Payload)
      → ((respond decode service (AdminCall.post_apply auth new_id intent_id now) s).1 ≡ s)
        ⊎ IsChange decode auth intent_id s
            (respond decode service (AdminCall.post_apply auth new_id intent_id now) s).1.settings
  unfolding respond store_applied apply_intent
  apply_cases decode service auth new_id intent_id now s =
      elim (Access-cases (require_roles decode (Role.admin ∷ []) auth)) [
        | inl (r, e) ↦ inl (rw e refl)
        | inr (i, e) ↦ elim (Option-cases (load_intent s intent_id)) [
          | inl none_there ↦ inl (rw (e, apply_intent, none_there) refl)
          | inr (intent, found) ↦ elim (Option-cases (require_approved_review s intent_id)) [
            | inl unapproved ↦ inl (rw (e, apply_intent, found, unapproved) refl)
            | inr (review, approved) ↦ elim (Option-cases (upsert new_id intent now s.settings)) [
              | inl clash ↦ inl (rw (e, apply_intent, found, approved, clash) refl)
              | inr ((row, rows), made) ↦
                  let (granted, role) =
                    (require_roles_for_iff (require_identity decode auth) (Role.admin ∷ []) i).0
                      e in
                  inr (
                    rw (e, apply_intent, found, approved, made)
                      (record {
                        admin = i;
                        granted = granted;
                        role = elim role [
                          | inl admin ↦ admin
                          | inr (inl admin) ↦ admin
                          | inr (inr impossible) ↦ absurd impossible
                        ];
                        intent = intent;
                        found = found;
                        review = review;
                        approved = approved_of s intent_id review approved;
                        sets = λ k. upsert-setting_of new_id intent now s.settings rows row k made;
                      }))
            ]
          ]
        ]
      ]
