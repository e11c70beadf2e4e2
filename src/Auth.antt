-- ===== src/Auth.antt =====
-- Who a caller is and what its roles permit: src/sps/auth/identity.py and src/sps/auth/rbac.py.
-- `jwt.decode` with the settings is a parameter, of which the model knows how it can end.
pub mod Grants
pub mod Samples
mod Examples
use sps_v.Common.{
  String, Bool, true, false, not, ◌&&◌, ◌||◌, Option, none, some, List, [], ◌∷◌, map, ◌==◌,
  string_eq, if◌then◌else◌, elem,
}
use sps_v.Common.Text.{lower, split, is_blank}

-- A role_value of a claim, as far as the code tells them apart; a claim that is not there is `null`.
pub data Claim : Type 0 where
  null other : Claim
  text : String → Claim
  texts : List String → Claim

pub record Claims : Type 0 where
  pub sub : Claim
  pub roles : Claim
  pub principal_type : Claim
  pub iss : Claim
  pub aud : Claim

-- How `jwt.decode` ends: with the payload, or with an exception.
pub data Decoded : Type 0 where
  payload : Claims → Decoded
  expired_signature invalid_audience invalid_issuer invalid : Decoded

pub record Identity : Type 0 where
  pub subject : String
  pub roles : List String
  pub issuer : Option String
  pub audience : Option String

-- A 401 with its `auth_reason` and `guard`, one of the 401s for API keys, or the 403 of a role.
pub data Refusal : Type 0 where
  auth_required : (auth_reason : String) (guard : Option String) → Refusal
  invalid_api_key missing_api_key : Refusal
  role_denied : (required_roles : List String) → Refusal

-- What a dependency on the caller gives.
pub data Access : Type 0 where
  granted : Identity → Access
  refused : Refusal → Access

pub data Role : Type 0 where
  intake reviewer ops release escalation_owner admin : Role

pub role_value : Role → String
role_value Role.intake = "intake"
role_value Role.reviewer = "reviewer"
role_value Role.ops = "ops"
role_value Role.release = "release"
role_value Role.escalation_owner = "escalation-owner"
role_value Role.admin = "admin"

-- `validate_jwt_identity` returns an identity or raises an `AuthError` with a reason.
pub data Validated : Type 0 where
  valid : Identity → Validated
  auth_error : (reason : String) → Validated

abbrev pub text_of : Claim → Option String
text_of (Claim.text s) = some s
text_of _ = none

abbrev pub given_text : Claim → Option String
given_text (Claim.text s) = if s == "" then none else some s
given_text _ = none

-- `_coerce_roles`; `none` is the `AuthError`.
abbrev pub coerce_roles : Claim → Option (List String)
coerce_roles Claim.null = some []
coerce_roles (Claim.text s) = some (s ∷ [])
coerce_roles (Claim.texts ss) = some ss
coerce_roles Claim.other = none

-- `_validate_principal_type`, where one is expected: the reason of its `AuthError`.
abbrev pub principal_type_error : Option String → Claim → Option String
principal_type_error none c = none
principal_type_error (some expected) c = elim (given_text c) [
  | none ↦ some "missing_principal_type"
  | some t ↦ if t == expected then none else some "invalid_principal_type"
]

pub identity_of : Option String → Claims → Validated
identity_of expected c = elim (given_text c.sub) [
  | none ↦ Validated.auth_error "missing_subject"
  | some subject ↦ elim (coerce_roles c.roles) [
    | none ↦ Validated.auth_error "invalid_roles"
    | some roles ↦ elim (principal_type_error expected c.principal_type) [
      | some reason ↦ Validated.auth_error reason
      | none ↦ Validated.valid (record {
        subject = subject;
        roles = roles;
        issuer = text_of c.iss;
        audience = text_of c.aud;
      })
    ]
  ]
]

-- What becomes of the end of `jwt.decode`.
pub identity_of_decoded : Option String → Decoded → Validated
identity_of_decoded expected (Decoded.payload c) = identity_of expected c
identity_of_decoded expected Decoded.expired_signature = Validated.auth_error "token_expired"
identity_of_decoded expected Decoded.invalid_audience = Validated.auth_error "invalid_audience"
identity_of_decoded expected Decoded.invalid_issuer = Validated.auth_error "invalid_issuer"
identity_of_decoded expected Decoded.invalid = Validated.auth_error "invalid_token"

pub validate_jwt_identity : (String → Decoded) → Option String → String → Validated
validate_jwt_identity decode expected token = identity_of_decoded expected (decode token)

abbrev bearer : List String → Option String
bearer (scheme ∷ token ∷ []) = if lower scheme == "bearer" then some token else none
bearer _ = none

-- `_extract_bearer_token`
pub extract_bearer_token : Option String → Option String
extract_bearer_token none = none
extract_bearer_token (some authorization) = bearer (split authorization)

-- What a request brings: the `Authorization` header, the one that the proxy sets for mutual TLS, and
-- the key of the legacy flow.
pub record Credentials : Type 0 where
  pub authorization : Option String
  pub mtls : Option String
  pub api_key : Option String

abbrev pub missing_token : Option String → Access
missing_token guard =
    Access.refused (Refusal.auth_required "missing_or_invalid_authorization" guard)

-- `mtls_value is not None and mtls_value.strip()`
abbrev pub has_mtls : Option String → Bool
has_mtls none = false
has_mtls (some v) = not (is_blank v)

module _ (decode : String → Decoded) where
  pub require_identity : Option String → Access
  require_identity authorization = elim (extract_bearer_token authorization) [
    | none ↦ missing_token none
    | some token ↦ elim (validate_jwt_identity decode none token) [
      | Validated.auth_error reason ↦ Access.refused (Refusal.auth_required reason none)
      | Validated.valid identity ↦ Access.granted identity
    ]
  ]

  pub require_service_principal : Credentials → Access
  require_service_principal c = elim (extract_bearer_token c.authorization) [
    | none ↦ missing_token (some "service_principal")
    | some token ↦ elim (validate_jwt_identity decode (some "service_principal") token) [
      | Validated.auth_error reason ↦
          Access.refused (Refusal.auth_required reason (some "service_principal"))
      | Validated.valid identity ↦
          if has_mtls c.mtls
          then Access.granted identity
          else Access.refused (Refusal.auth_required "missing_mtls_signal" (some "mtls_signal"))
    ]
  ]

-- `_normalize_roles`
abbrev pub normalize_roles : List String → List String
normalize_roles roles = map lower roles

-- `identity_roles.intersection(required_values)` is not empty.
pub has_any : List Role → List String → Bool
has_any [] roles = false
has_any (r ∷ rs) roles = elem (role_value r) roles || has_any rs roles

-- `require_roles_for`, after the guard on which it depends.
pub require_roles_for : Access → List Role → Access
require_roles_for (Access.refused r) required = Access.refused r
require_roles_for (Access.granted identity) required =
    let roles = normalize_roles identity.roles in
    if elem (role_value Role.admin) roles || has_any required roles
    then Access.granted identity
    else Access.refused (Refusal.role_denied (map role_value required))

abbrev pub require_roles : (String → Decoded) → List Role → Option String → Access
require_roles decode required authorization =
    require_roles_for (require_identity decode authorization) required

abbrev api_key_identity : Identity
api_key_identity = record {
  subject = "reviewer-api-key";
  roles = role_value Role.reviewer ∷ role_value Role.ops ∷ role_value Role.release ∷ [];
  issuer = none;
  audience = none;
}

-- `_identity_for_legacy_reviewer_api_key`; `none` where no key is given.
abbrev pub identity_for_legacy_reviewer_api_key : String → Option String → Option Access
identity_for_legacy_reviewer_api_key key none = none
identity_for_legacy_reviewer_api_key key (some given) = some (
    if given == key
    then Access.granted api_key_identity
    else Access.refused Refusal.invalid_api_key)

abbrev is_given : Option String → Bool
is_given none = false
is_given (some s) = not (s == "")

pub require_reviewer_identity : (String → Decoded) → String → Credentials → Access
require_reviewer_identity decode key c = elim (identity_for_legacy_reviewer_api_key key c.api_key) [
  | some access ↦ access
  | none ↦
      if is_given c.authorization
      then require_roles decode (Role.reviewer ∷ []) c.authorization
      else Access.refused Refusal.missing_api_key
]

-- `_require_reviewer_only` of the admin routes, whose caller has the role itself, admin or not.
pub require_reviewer_only : (String → Decoded) → Option String → Access
require_reviewer_only decode authorization =
    elim (require_roles decode (Role.reviewer ∷ []) authorization) [
      | Access.refused r ↦ Access.refused r
      | Access.granted identity ↦
          if elem (role_value Role.reviewer) (normalize_roles identity.roles)
          then Access.granted identity
          else Access.refused (Refusal.role_denied (role_value Role.reviewer ∷ []))
    ]
