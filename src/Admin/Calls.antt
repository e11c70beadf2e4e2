-- ===== src/Admin/Calls.antt =====
-- Requests to the routes of a change workflow, behind their guards.
use sps_v.Auth.{Access, Decoded, Identity, Role, require_roles, require_reviewer_only}
use sps_v.Common.{ℕ, String, Option, List, [], ◌∷◌}
use sps_v.Admin.{
  Store, Service, IntentCreateRequest, ReviewDecisionRequest, Reply, create_intent, record_review,
  apply_intent,
}

-- A request to one of the three routes, with its `Authorization` header and time.
pub data AdminCall (Payload : Type 0) : Type 0 where
  post_intent : Option String → IntentCreateRequest Payload → ℕ → AdminCall Payload
  post_review : Option String → ReviewDecisionRequest → ℕ → AdminCall Payload
  post_apply : Option String → (new_id intent_id : String) → ℕ → AdminCall Payload

module _ {Payload : Type 0} where
  abbrev behind_guard :
      Access
      → (Identity → Reply Payload × Store Payload)
      → Store Payload
      → Reply Payload × Store Payload
  behind_guard (Access.refused r) handler s = (Reply.refused r, s)
  behind_guard (Access.granted identity) handler s = handler identity

  -- The routes, each behind the guard on which it depends.
  unfoldable pub respond :
      (String → Decoded)
      → Service Payload
      → AdminCall Payload
      → Store Payload
      → Reply Payload × Store Payload
  respond decode service (AdminCall.post_intent auth req now) s =
      behind_guard (require_roles decode (Role.admin ∷ []) auth)
        (λ identity. create_intent service identity req now s) s
  respond decode service (AdminCall.post_review auth req now) s =
      behind_guard (require_reviewer_only decode auth)
        (λ identity. record_review service identity req now s) s
  respond decode service (AdminCall.post_apply auth new_id intent_id now) s =
      behind_guard (require_roles decode (Role.admin ∷ []) auth)
        (λ identity. apply_intent service identity new_id intent_id now s) s

  -- The store after a list of calls.
  unfoldable pub respond_all :
      (String → Decoded)
      → Service Payload
      → List (AdminCall Payload)
      → Store Payload
      → Store Payload
  respond_all decode service [] s = s
  respond_all decode service (c ∷ cs) s =
      respond_all decode service cs (respond decode service c s).1
