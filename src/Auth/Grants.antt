-- ===== src/Auth/Grants.antt =====
-- Who is let pass.
use sps_v.Common.{
  String, ◌≡◌, ◌≢◌, ◌⊎◌, ◌↔◌, refl, sym, ◌∙◌, ap, subst, inl, inr, true, ◌||◌, Bool-cases, Option,
  none, some, Option-cases, List, [], ◌∷◌, string_eq, eq_iff, elem, Exists, arith,
}
use sps_v.Auth.{
  Claim, Claims, Decoded, payload, Identity, Access, Role, role_value, Credentials, coerce_roles,
  text_of, given_text, principal_type_error, Refusal, identity_of_decoded, identity_of,
  validate_jwt_identity, Validated, extract_bearer_token, has_mtls, require_service_principal,
  normalize_roles, has_any, require_roles_for, require_roles, require_reviewer_only, missing_token,
}

-- One of the roles is among those of the identity.
abbrev pub HasRole : Identity → Role → Type 0
HasRole i r = elem (role_value r) (normalize_roles i.roles) ≡ true

has_any_iff :
    (required : List Role) (roles : List String)
    → (has_any required roles ≡ true) ↔ Exists (λ r. elem (role_value r) roles ≡ true) required
unfolding has_any
has_any_iff [] roles = (λ h. cc, λ h. absurd h)
has_any_iff (r ∷ rs) roles = (
  λ h. elim (Bool-cases (elem (role_value r) roles)) [
    | inl here ↦ inl here
    | inr other ↦ inr ((has_any_iff rs roles).0 (ground arith))
  ],
  λ h. elim h [
    | inl here ↦ ground arith
    | inr there ↦ let e = (has_any_iff rs roles).1 there in ground arith
  ],
)

permitted_iff :
    (required : List Role) (i : Identity)
    → ((elem (role_value Role.admin) (normalize_roles i.roles)
          || has_any required (normalize_roles i.roles))
        ≡ true)
      ↔ (HasRole i Role.admin ⊎ Exists (HasRole i) required)
permitted_iff required i = (
  λ h. elim (Bool-cases (elem (role_value Role.admin) (normalize_roles i.roles))) [
    | inl admin ↦ inl admin
    | inr other ↦ inr ((has_any_iff required (normalize_roles i.roles)).0 (ground arith))
  ],
  λ h. elim h [
    | inl admin ↦ ground arith
    | inr some_role ↦
        let e = (has_any_iff required (normalize_roles i.roles)).1 some_role in ground arith
  ],
)

pub Access-cases :
    (a : Access)
    → ((r : Refusal) × (a ≡ Access.refused r)) ⊎ ((i : Identity) × (a ≡ Access.granted i))
Access-cases (Access.refused r) = inl (r, refl)
Access-cases (Access.granted i) = inr (i, refl)

-- A caller passes the test of roles exactly if it passed the guard before, and is an admin or has one
-- of the required roles.
pub require_roles_for_iff :
    (access : Access) (required : List Role) (i : Identity)
    → (require_roles_for access required ≡ Access.granted i)
      ↔ ((access ≡ Access.granted i) × (HasRole i Role.admin ⊎ Exists (HasRole i) required))
unfolding require_roles_for
require_roles_for_iff (Access.refused r) required i = (λ h. cc, λ (h, k). cc)
require_roles_for_iff (Access.granted j) required i = (
  λ h.
      elim (Bool-cases (
        elem (role_value Role.admin) (normalize_roles j.roles)
        || has_any required (normalize_roles j.roles))) [
          | inl permitted ↦
              let e : j ≡ i = ground arith in
              (
                ap Access.granted e,
                subst (λ k. HasRole k Role.admin ⊎ Exists (HasRole k) required) e
                    ((permitted_iff required j).0 permitted),
              )
          | inr denied ↦ absurd (ground arith)
        ],
  λ (h, k).
      let e : j ≡ i = ground arith in
      let permitted =
        (permitted_iff required j).1
          (subst (λ k. HasRole k Role.admin ⊎ Exists (HasRole k) required) (sym e) k) in
      rw permitted h,
)

-- The credentials of a service: a token that decodes to the claims of a service principal with its
-- identity, and the header of mutual TLS.
pub record IsService (decode : String → Decoded) (c : Credentials) (i : Identity) : Type 0 where
  pub token : String
  pub claims : Claims
  pub sent : extract_bearer_token c.authorization ≡ some token
  pub decoded : decode token ≡ payload claims
  pub subject : claims.sub ≡ Claim.text i.subject
  pub named : i.subject ≢ ""
  pub roles : coerce_roles claims.roles ≡ some i.roles
  pub issuer : text_of claims.iss ≡ i.issuer
  pub audience : text_of claims.aud ≡ i.audience
  pub principal : claims.principal_type ≡ Claim.text "service_principal"
  pub mtls : has_mtls c.mtls ≡ true

given_text_iff :
    (c : Claim) (s : String) → (given_text c ≡ some s) ↔ ((c ≡ Claim.text s) × (s ≢ ""))
given_text_iff Claim.null s = (λ h. cc, λ (h, n). cc)
given_text_iff Claim.other s = (λ h. cc, λ (h, n). cc)
given_text_iff (Claim.texts ss) s = (λ h. cc, λ (h, n). cc)
given_text_iff (Claim.text t) s = (
  λ h. (ground (arith, eq_iff t ""), ground (arith, eq_iff t "")),
  λ (h, n). ground (arith, eq_iff t ""),
)

principal_iff :
    (c : Claim)
    → (principal_type_error (some "service_principal") c ≡ none)
      ↔ (c ≡ Claim.text "service_principal")
principal_iff Claim.null = (λ h. cc, λ h. cc)
principal_iff Claim.other = (λ h. cc, λ h. cc)
principal_iff (Claim.texts ss) = (λ h. cc, λ h. cc)
principal_iff (Claim.text t) = (
  λ h. ground (arith, eq_iff t "", eq_iff t "service_principal"),
  λ h. let e : t ≡ "service_principal" = ground arith in rw e refl,
)

identity_of_iff :
    (c : Claims) (i : Identity)
    → (identity_of (some "service_principal") c ≡ Validated.valid i) ↔ (
        (c.sub ≡ Claim.text i.subject)
        × (i.subject ≢ "")
        × (coerce_roles c.roles ≡ some i.roles)
        × (text_of c.iss ≡ i.issuer)
        × (text_of c.aud ≡ i.audience)
        × (c.principal_type ≡ Claim.text "service_principal"))
unfolding identity_of
identity_of_iff c i = (
  λ h. elim (Option-cases (given_text c.sub)) [
    | inl missing ↦ absurd (ground arith)
    | inr (subject, named) ↦ elim (Option-cases (coerce_roles c.roles)) [
      | inl bad ↦ absurd (ground arith)
      | inr (roles, held) ↦
          elim (Option-cases (principal_type_error (some "service_principal") c.principal_type)) [
            | inr (reason, wrong) ↦ absurd (ground arith)
            | inl right ↦
                let (s, n) = (given_text_iff c.sub subject).0 named in
                let e : subject ≡ i.subject = ground arith in
                (
                  s ∙ ap Claim.text e,
                  subst (λ t. t ≢ "") e n,
                  ground arith,
                  ground arith,
                  ground arith,
                  (principal_iff c.principal_type).0 right,
                )
          ]
    ]
  ],
  λ (s, n, r, a, b, p).
      let g = (given_text_iff c.sub i.subject).1 (s, n) in
      let q = (principal_iff c.principal_type).1 p in ground arith,
)

decoded_payload :
    (expected : Option String) (d : Decoded) (i : Identity)
    → identity_of_decoded expected d ≡ Validated.valid i
    → (c : Claims) × (d ≡ payload c) × (identity_of expected c ≡ Validated.valid i)
unfolding identity_of_decoded
decoded_payload expected (payload c) i h = (c, refl, h)
decoded_payload expected Decoded.expired_signature i h = absurd (cc)
decoded_payload expected Decoded.invalid_audience i h = absurd (cc)
decoded_payload expected Decoded.invalid_issuer i h = absurd (cc)
decoded_payload expected Decoded.invalid i h = absurd (cc)

Validated-cases :
    (v : Validated)
    → ((r : String) × (v ≡ Validated.auth_error r)) ⊎ ((i : Identity) × (v ≡ Validated.valid i))
Validated-cases (Validated.auth_error r) = inl (r, refl)
Validated-cases (Validated.valid i) = inr (i, refl)

-- The guard of services grants exactly the identity of a service's credentials.
pub require_service_principal_iff :
    (decode : String → Decoded) (c : Credentials) (i : Identity)
    → (require_service_principal decode c ≡ Access.granted i) ↔ IsService decode c i
unfolding require_service_principal validate_jwt_identity identity_of_decoded
require_service_principal_iff decode c i = (
  λ h. elim (Option-cases (extract_bearer_token c.authorization)) [
    | inl none_sent ↦ absurd (ground arith)
    | inr (token, sent) ↦
        elim (Validated-cases (identity_of_decoded (some "service_principal") (decode token))) [
          | inl (reason, wrong) ↦ absurd (ground arith)
          | inr (j, right) ↦
              let (claims, decoded, of) =
                decoded_payload (some "service_principal") (decode token) j right in
              let e : j ≡ i = ground arith in
              let (s, n, r, a, b, p) = (identity_of_iff claims i).0 (of ∙ ap Validated.valid e) in
              record {
                token = token;
                claims = claims;
                sent = sent;
                decoded = decoded;
                subject = s;
                named = n;
                roles = r;
                issuer = a;
                audience = b;
                principal = p;
                mtls = ground arith;
              }
        ]
  ],
  λ h.
      let of =
        (identity_of_iff h.claims i).1
          (h.subject, h.named, h.roles, h.issuer, h.audience, h.principal) in
      let sent = h.sent in let decoded = h.decoded in let mtls = h.mtls in ground arith,
)

-- A caller passes `_require_reviewer_only` only with the role of a reviewer; an admin has no other way.
pub require_reviewer_only-HasRole :
    (decode : String → Decoded) (authorization : Option String) (i : Identity)
    → require_reviewer_only decode authorization ≡ Access.granted i
    → HasRole i Role.reviewer
unfolding require_reviewer_only
require_reviewer_only-HasRole decode authorization i h =
    elim (Access-cases (require_roles decode (Role.reviewer ∷ []) authorization)) [
      | inl (r, e) ↦ absurd (ground arith)
      | inr (j, e) ↦ elim (Bool-cases (elem (role_value Role.reviewer) (normalize_roles j.roles))) [
        | inl held ↦
            let same : j ≡ i = ground arith in subst (λ k. HasRole k Role.reviewer) same held
        | inr other ↦ absurd (ground arith)
      ]
    ]

-- Without an `Authorization` header the guard of services refuses, whatever else is sent.
pub refused_without_token :
    (decode : String → Decoded) (c : Credentials) (required : List Role)
    → c.authorization ≡ none
    → require_roles_for (require_service_principal decode c) required
      ≡ missing_token (some "service_principal")
unfolding require_roles_for require_service_principal extract_bearer_token
refused_without_token decode c required e = ground arith
