-- ===== src/Auth/Samples.antt =====
-- Sample credentials, with a library for tokens that knows one of them.
use sps_v.Common.{String, ◌≡◌, refl, elem, none, some, [], ◌∷◌, ◌==◌, string_eq, if◌then◌else◌}
use sps_v.Auth.{
  Claim, Claims, Decoded, payload, Identity, Access, Role, role_value, Credentials,
  require_identity, require_roles, require_roles_for, require_reviewer_only,
  require_reviewer_identity, extract_bearer_token, validate_jwt_identity, identity_of_decoded,
  identity_of, has_any,
}
use sps_v.Common.Text.{is_blank, lower, split}

abbrev pub service_claims : Claims
service_claims = record {
  sub = Claim.text "releaser";
  roles = Claim.texts ("Release" ∷ []);
  principal_type = Claim.text "service_principal";
  iss = Claim.null;
  aud = Claim.texts ("sps" ∷ []);
}

abbrev pub sample_decode : String → Decoded
sample_decode token = if token == "token-1" then payload service_claims else Decoded.invalid

abbrev pub releaser : Identity
releaser = record { subject = "releaser"; roles = "Release" ∷ []; issuer = none; audience = none }

abbrev pub service : Credentials
service = record { authorization = some " BEARER token-1"; mtls = some "verified"; api_key = none }

-- A library for tokens that are the name of a role.
abbrev pub decode_role : String → Decoded
decode_role role = payload (record service_claims { roles = Claim.text role })

abbrev pub with_role : String → Identity
with_role role = record releaser { roles = role ∷ [] }

pub admin_granted :
    require_roles decode_role (Role.admin ∷ []) (some "Bearer admin")
    ≡ Access.granted (with_role "admin")
unfolding require_identity require_roles_for extract_bearer_token split lower is_blank
    validate_jwt_identity identity_of_decoded identity_of has_any elem role_value
admin_granted = refl

pub reviewer_granted :
    require_reviewer_only decode_role (some "Bearer reviewer")
    ≡ Access.granted (with_role "reviewer")
unfolding require_reviewer_only require_identity require_roles_for extract_bearer_token split lower
    is_blank validate_jwt_identity identity_of_decoded identity_of has_any elem role_value
reviewer_granted = refl

-- A caller with the legacy key.
abbrev pub key_credentials : Credentials
key_credentials = record { authorization = none; mtls = none; api_key = some "key" }

abbrev pub key_holder : Identity
key_holder = record {
  subject = "reviewer-api-key";
  roles = "reviewer" ∷ "ops" ∷ "release" ∷ [];
  issuer = none;
  audience = none;
}

pub key_granted :
    require_reviewer_identity sample_decode "key" key_credentials ≡ Access.granted key_holder
unfolding require_reviewer_identity role_value
key_granted = refl
