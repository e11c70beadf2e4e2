-- ===== src/Overrides/Covers.antt =====
-- What an override that was created is to the transition guard.
use Prim.Native.String.{◌++◌}
use sps_v.Common.{
  ℕ, ◌+◌, ◌<◌, String, ◌≡◌, ◌↔◌, sym, ◌∙◌, ap, subst, true, some, none, is_some, ◌==◌, string_eq,
  arith, Bool-cases, inl, inr, find, find-append_new, ltb, str_refl, elem,
}
use sps_v.Common.Time.{to_utc, hours}
use sps_v.Contracts.CaseState.{value}
use sps_v.Contracts.Transition.{StateTransitionRequest}
use sps_v.Db.{Database, OverrideArtifact}
use sps_v.Assertions.{Registry}
use sps_v.Guard.Gates.{validate_override}
use sps_v.Guard.Gates.Review.{validate_override_iff}
use sps_v.Guard.Spec.{HasOverride}
use sps_v.Overrides.{
  CreateOverrideRequest, OverrideResponse, row_to_response, Reply, is_valid_request, expiry,
  max_datetime, new_row, violates, override_id_of, create_override,
}

module _ (ulid subject : String) (now : ℕ) (req : CreateOverrideRequest) (db : Database)
    (response : OverrideResponse)
    (made : (create_override ulid subject now req db).0 ≡ Reply.created response) where
  abbrev row : OverrideArtifact
  row = new_row (override_id_of ulid) subject now req

  found_created :
      (response ≡ row_to_response row)
      × (find
            (λ o. o.override_id == override_id_of ulid)
            (create_override ulid subject now req db).1.override_artifacts
          ≡ some row)
  unfolding create_override violates new_row
  found_created = elim (Bool-cases (is_valid_request req)) [
    | inr invalid ↦ absurd (ground arith)
    | inl valid ↦ elim (Bool-cases (ltb max_datetime (expiry now req))) [
      | inl late ↦ absurd (ground arith)
      | inr early ↦ elim (Bool-cases (violates (override_id_of ulid) req db)) [
        | inl clash ↦ absurd (ground arith)
        | inr free ↦
            let found =
              find-append_new (λ o. o.override_id == override_id_of ulid) db.override_artifacts row
                (ground arith) (str_refl (override_id_of ulid)) in
            (ground arith, ground (arith, found))
      ]
    ]
  ]

  abbrev after : Database
  after = (create_override ulid subject now req db).1

  -- What the guard asks of the override: the case, the hours, and the surface.
  record IsCovered (transition : StateTransitionRequest) (at : ℕ) : Type 0 where
    same_case : transition.case_id ≡ req.case_id
    unexpired : at < now + hours req.duration_hours
    in_scope :
        elem
          (value transition.from_state ++ "->" ++ value transition.to_state)
          req.affected_surfaces
        ≡ true

  HasOverride-IsCovered :
      (transition : StateTransitionRequest) (at : ℕ)
      → transition.override_id ≡ some response.override_id
      → HasOverride transition at after ↔ IsCovered transition at
  unfolding new_row
  HasOverride-IsCovered transition at named =
      let (answer, found) = found_created in
      let id : response.override_id ≡ override_id_of ulid =
        ap (λ (r : OverrideResponse). r.override_id) answer in
      (
        λ h.
            let given : h.override_id ≡ override_id_of ulid = ground (arith, h.named) in
            let again : find (λ o. o.override_id == override_id_of ulid) after.override_artifacts
                ≡ some h.row =
              rw given at h.found in
            let here : h.row ≡ row = cc (again, found) in
            record {
              same_case = sym h.same_case ∙ ap (λ (r : OverrideArtifact). r.case_id) here;
              unexpired =
                  subst (λ (r : OverrideArtifact). at < to_utc r.expires_at) here h.unexpired;
              in_scope =
                  subst
                    (λ (r : OverrideArtifact).
                      elem (value transition.from_state ++ "->" ++ value transition.to_state)
                        r.affected_surfaces
                      ≡ true)
                    here h.in_scope;
            },
        λ h. record {
          override_id = override_id_of ulid;
          row = row;
          named = named ∙ ap some id;
          found = found;
          same_case = sym h.same_case;
          unexpired = h.unexpired;
          in_scope = h.in_scope;
        },
      )

  -- The guard's test of overrides accepts an override that was created, for a request that names it,
  -- exactly if the request is one of the override's case, its transition is among the override's
  -- surfaces, and its time is before the end of the given hours, which run from the creation; a time
  -- before the creation is accepted too.
  pub create_override-validate_override :
      (registry : Registry) (transition : StateTransitionRequest) (at : ℕ)
      → transition.override_id ≡ some response.override_id
      → (validate_override registry transition at
            (create_override ulid subject now req db).1
            transition.override_id
          ≡ none)
        ↔ ((transition.case_id ≡ req.case_id)
            × (at < now + hours req.duration_hours)
            × (elem
                  (value transition.from_state ++ "->" ++ value transition.to_state)
                  req.affected_surfaces
                ≡ true))
  create_override-validate_override registry transition at named =
      let accepted = validate_override_iff registry transition at after (ap is_some named) in
      let covered = HasOverride-IsCovered transition at named in
      (
        λ h. let c = covered.0 (accepted.0 h) in (c.same_case, c.unexpired, c.in_scope),
        λ (same, unexpired, in_scope).
            accepted.1
              (covered.1 (record { same_case = same; unexpired = unexpired; in_scope = in_scope })),
      )
