-- ===== src/Auth/Examples.antt =====
-- Who is let pass, on sample credentials.
use sps_v.Common.{◌≡◌, ◌↔◌, refl, some, [], ◌∷◌, string_eq, elem}
use sps_v.Common.Text.{is_blank, lower, split}
use sps_v.Auth.{
  Claim, payload, Refusal, Access, Role, role_value, require_service_principal, require_roles_for,
  require_reviewer_only, extract_bearer_token, validate_jwt_identity, identity_of_decoded,
  identity_of, has_any, require_identity,
}
use sps_v.Auth.Samples.{service_claims, sample_decode, releaser, service}
use sps_v.Auth.Grants.{IsService, require_service_principal_iff}

grants_service : require_service_principal sample_decode service ≡ Access.granted releaser
unfolding require_service_principal extract_bearer_token split lower validate_jwt_identity
    identity_of_decoded identity_of is_blank
grants_service = refl

needs_mtls :
    require_service_principal sample_decode (record service { mtls = some "  " })
    ≡ Access.refused (Refusal.auth_required "missing_mtls_signal" (some "mtls_signal"))
unfolding require_service_principal extract_bearer_token split lower validate_jwt_identity
    identity_of_decoded identity_of is_blank
needs_mtls = refl

grants_release :
    require_roles_for (Access.granted releaser) (Role.release ∷ []) ≡ Access.granted releaser
unfolding require_roles_for has_any lower elem role_value
grants_release = refl

admin_is_no_reviewer :
    require_reviewer_only
      (λ token. payload (record service_claims { roles = Claim.text "admin" }))
      (some "Bearer token-1")
    ≡ Access.refused (Refusal.role_denied ("reviewer" ∷ []))
unfolding require_reviewer_only require_identity extract_bearer_token split lower
    validate_jwt_identity identity_of_decoded identity_of require_roles_for has_any elem role_value
admin_is_no_reviewer = refl

require_service_principal_iff_example :
    (require_service_principal sample_decode service ≡ Access.granted releaser)
    ↔ IsService sample_decode service releaser
require_service_principal_iff_example = require_service_principal_iff sample_decode service releaser
