-- ===== src/Contradictions/Blocks.antt =====
-- What the endpoints mean to the review gate: an open blocking contradiction shuts it.
use sps_v.Common.{
  ℕ, String, ◌≡◌, ◌≢◌, ◌↔◌, refl, sym, ◌∙◌, subst, true, false, none, some, List, [], ◌∷◌, ◌==◌,
  string_eq, arith, Bool-cases, Option-cases, inl, inr, update, find-append_new, find-update_self,
  find-satisfies, str_refl, eq_iff, Exists, Exists-last, ok,
}
use sps_v.Contracts.CaseState.{review_pending, approved_for_submission}
use sps_v.Contracts.Transition.{StateTransitionRequest, StateTransitionResult, is_applied}
use sps_v.Assertions.{Registry}
use sps_v.Db.{Database, PermitCase, ContradictionArtifact}
use sps_v.Guard.Branch.{branch, Branch}
use sps_v.Guard.Branch.Edges.{branch_of_Edge}
use sps_v.Guard.Spec.{Needs, HasBlocker}
use sps_v.Guard.Apply.{requested_at, get_case, evaluate}
use sps_v.Guard.Apply.Exact.{evaluate_sound}
use sps_v.Contradictions.{
  CreateContradictionRequest, ResolveContradictionRequest, ContradictionResponse, Reply, get_row,
  new_row, violates, create_contradiction, resolved, resolve_contradiction, get_contradiction,
}

-- A contradiction that stands in the way of the transition.
abbrev pub Blocks : StateTransitionRequest → ContradictionArtifact → Type 0
Blocks transition c =
    (c.case_id ≡ transition.case_id) × (c.blocking_effect ≡ true) × (c.resolution_status ≡ "OPEN")

-- With a blocker, the approval needs an override.
blocked_approval :
    (registry : Registry) (transition : StateTransitionRequest) (db : Database) (case : PermitCase)
    (r : StateTransitionResult)
    → transition.from_state ≡ review_pending
    → transition.to_state ≡ approved_for_submission
    → transition.override_id ≡ none
    → get_case transition db ≡ some case
    → HasBlocker transition (requested_at transition) db
    → evaluate registry transition db ≡ ok r
    → is_applied r ≡ false
unfolding branch
blocked_approval registry transition db case r from to plain found blocker e =
    elim (Bool-cases (is_applied r)) [
      | inr denied ↦ denied
      | inl applies ↦
          let (same, (b, edge, needs)) =
            evaluate_sound registry transition db case r found e applies in
          let gate : b ≡ Branch.review_gate = sym (branch_of_Edge edge) ∙ rw (from, to) refl in
          elim (subst (λ x. Needs transition (requested_at transition) db x) gate needs).1 [
            | inl o ↦ absurd (cc (o.named, plain))
            | inr clear ↦ absurd (clear.1 blocker)
          ]
    ]

-- Once a blocking contradiction of a case has been created, a request for the approval of that case
-- for submission that names no override and that the guard decides is denied, whatever reviews there
-- are.
pub create_contradiction-evaluate :
    (req : CreateContradictionRequest) (db : Database) (registry : Registry)
    (transition : StateTransitionRequest) (case : PermitCase) (r : StateTransitionResult)
    (response : ContradictionResponse)
    → (create_contradiction req db).0 ≡ Reply.done response
    → req.blocking_effect ≡ true
    → transition.case_id ≡ req.case_id
    → transition.from_state ≡ review_pending
    → transition.to_state ≡ approved_for_submission
    → transition.override_id ≡ none
    → get_case transition (create_contradiction req db).1 ≡ some case
    → evaluate registry transition (create_contradiction req db).1 ≡ ok r
    → is_applied r ≡ false
unfolding create_contradiction new_row
create_contradiction-evaluate req db registry transition case r response made blocking same from to
      plain found e =
    let new : violates req db ≡ false = elim (Bool-cases (violates req db)) [
      | inl clash ↦ absurd (ground arith)
      | inr free ↦ free
    ] in
    blocked_approval registry transition (create_contradiction req db).1 case r from to plain found
      (rw new (
        Exists-last (Blocks transition) db.contradiction_artifacts (new_row req)
          (sym same, blocking, refl)))
      e

module _ (now : ℕ) (id : String) (req : ResolveContradictionRequest)
    (transition : StateTransitionRequest) where
  update_sound :
      (xs : List ContradictionArtifact)
      → Exists (Blocks transition) (update (λ c. c.contradiction_id == id) (resolved now req) xs)
      → Exists (λ c. (c.contradiction_id ≢ id) × Blocks transition c) xs
  unfolding update resolved
  update_sound [] h = absurd h
  update_sound (x ∷ xs) h = elim (Bool-cases (x.contradiction_id == id)) [
    | inl same ↦ elim (rw same at h) [
      | inl here ↦ absurd (ground (arith, here.2, eq_iff "RESOLVED" "OPEN"))
      | inr there ↦ inr (update_sound xs there)
    ]
    | inr other ↦ elim (rw other at h) [
      | inl here ↦ inl (λ e. ground (arith, eq_iff x.contradiction_id id), here)
      | inr there ↦ inr (update_sound xs there)
    ]
  ]

  update_complete :
      (xs : List ContradictionArtifact)
      → Exists (λ c. (c.contradiction_id ≢ id) × Blocks transition c) xs
      → Exists (Blocks transition) (update (λ c. c.contradiction_id == id) (resolved now req) xs)
  unfolding update resolved
  update_complete [] h = absurd h
  update_complete (x ∷ xs) h = elim (Bool-cases (x.contradiction_id == id)) [
    | inl same ↦ elim h [
      | inl here ↦ absurd (here.0 ((eq_iff x.contradiction_id id).0 same))
      | inr there ↦ rw same (inr (update_complete xs there))
    ]
    | inr other ↦ elim h [
      | inl here ↦ rw other (inl here.1)
      | inr there ↦ rw other (inr (update_complete xs there))
    ]
  ]

module _ (now : ℕ) (id : String) (req : ResolveContradictionRequest) (db : Database)
    (response : ContradictionResponse)
    (made : (resolve_contradiction now id req db).0 ≡ Reply.done response) where
  abbrev resolved_db : Database
  resolved_db = record db {
    contradiction_artifacts =
        update (λ c. c.contradiction_id == id) (resolved now req) db.contradiction_artifacts;
  }

  resolve_done :
      (row : ContradictionArtifact) × (get_row id db ≡ some row)
      × ((resolve_contradiction now id req db).1 ≡ resolved_db)
  unfolding resolve_contradiction
  resolve_done = elim (Option-cases (get_row id db)) [
    | inl missing ↦ absurd (ground arith)
    | inr (row, found) ↦ elim (Bool-cases (row.resolution_status == "OPEN")) [
      | inr shut ↦ absurd (ground arith)
      | inl is_open ↦ (row, found, ground arith)
    ]
  ]

  -- A contradiction that is resolved no longer blocks, and no other changes: after a resolution, the
  -- blockers of any transition are those before it, less the one resolved.
  pub resolve_contradiction-HasBlocker :
      (transition : StateTransitionRequest) (at : ℕ)
      → HasBlocker transition at (resolve_contradiction now id req db).1
        ↔ Exists (λ c. (c.contradiction_id ≢ id) × Blocks transition c) db.contradiction_artifacts
  resolve_contradiction-HasBlocker transition at =
      let (row, found, written) = resolve_done in
      subst
        (λ (d : Database).
          HasBlocker transition at d
          ↔ Exists (λ c. (c.contradiction_id ≢ id) × Blocks transition c)
              db.contradiction_artifacts)
        (sym written)
        (
          update_sound now id req transition db.contradiction_artifacts,
          update_complete now id req transition db.contradiction_artifacts,
        )

  get_row-resolved :
      (row : ContradictionArtifact)
      → get_row id db ≡ some row
      → get_row id resolved_db ≡ some (resolved now req row)
  unfolding get_row resolved
  get_row-resolved row found =
      find-update_self (λ c. c.contradiction_id == id) (resolved now req) db.contradiction_artifacts
        row (find-satisfies (λ c. c.contradiction_id == id) db.contradiction_artifacts row found)
        found

  -- A contradiction is resolved once: a second resolution, whoever asks, changes nothing and is
  -- answered with the conflict.
  pub resolve_contradiction-resolve_contradiction :
      (now' : ℕ) (req' : ResolveContradictionRequest)
      → resolve_contradiction now' id req' (resolve_contradiction now id req db).1
        ≡ (Reply.already_resolved id "RESOLVED", (resolve_contradiction now id req db).1)
  unfolding resolve_contradiction resolved
  resolve_contradiction-resolve_contradiction now' req' =
      let (row, found, written) = resolve_done in
      subst
        (λ (d : Database).
          resolve_contradiction now' id req' d ≡ (Reply.already_resolved id "RESOLVED", d))
        (sym written) (ground (arith, get_row-resolved row found))

-- What a creation answers is what the endpoint that reads the contradiction then answers.
pub get_contradiction-create_contradiction :
    (req : CreateContradictionRequest) (db : Database) (response : ContradictionResponse)
    → (create_contradiction req db).0 ≡ Reply.done response
    → get_contradiction req.contradiction_id (create_contradiction req db).1 ≡ Reply.done response
unfolding create_contradiction get_contradiction get_row violates new_row
get_contradiction-create_contradiction req db response made = elim (Bool-cases (violates req db)) [
  | inl clash ↦ absurd (ground arith)
  | inr free ↦
      let found =
        find-append_new (λ c. c.contradiction_id == req.contradiction_id) db.contradiction_artifacts
          (new_row req) (ground arith) (str_refl req.contradiction_id) in
      ground (arith, found)
]
