-- ===== src/Guard/Gates/Exact.antt =====
-- Each branch answers with an applied result exactly when its requirements hold.
use sps_v.Common.{
  ℕ, ◌+◌, ◌-◌, ◌≤◌, String, ◌≡◌, refl, ap, true, Option, none, some, List, ◌==◌, string_eq, arith,
  eq_iff, ok, find, filter, latest, is_some, inl, inr, Option-cases, Exists, Exists-map,
  count_cases, Exists-find, find_of_Exists, Exists-latest, latest_of_Exists,
}
use sps_v.Common.Time.{to_utc, days}
use sps_v.Contracts.Transition.{StateTransitionRequest, StateTransitionResult, is_applied}
use sps_v.Assertions.{Registry}
use sps_v.Db.{Database, ManualFallbackPackage}
use sps_v.Guard.Branch.{Branch}
use sps_v.Guard.Gates.{
  apply_at, intake_branch, jurisdiction_branch, requirements_branch, compliance_branch,
  incentives_branch, document_branch, manual_submission_branch, submission_branch, check_proof,
  run_branch, minus,
}
use sps_v.Guard.Gates.Review.{review_branch_sound, review_branch_complete}
use sps_v.Guard.Spec.{IsProven, Needs}

-- A table's rows of one case.
module _ {A : Type 0} (case_of : A → String) (id : String) (xs : List A) where
  found_sound : is_some (find (λ x. case_of x == id) xs) ≡ true → Exists (λ x. case_of x ≡ id) xs
  found_sound h =
      Exists-map (λ x k. (eq_iff (case_of x) id).0 k) xs (Exists-find (λ x. case_of x == id) xs h)

  found_complete : Exists (λ x. case_of x ≡ id) xs → is_some (find (λ x. case_of x == id) xs) ≡ true
  found_complete h =
      find_of_Exists (λ x. case_of x == id) xs
        (Exists-map (λ x k. (eq_iff (case_of x) id).1 k) xs h)

  module _ (key : A → ℕ) where
    newest_sound :
        (n d : ℕ) (a : A)
        → latest key (filter (λ x. case_of x == id) xs) ≡ some a
        → n ≤ key a + d
        → Exists (λ x. (case_of x ≡ id) × (n ≤ key x + d)) xs
    newest_sound n d a e h =
        Exists-map (λ x k. ((eq_iff (case_of x) id).0 k.0, omega (arith, k.1))) xs
          (Exists-latest (λ x. case_of x == id) key xs a e)

    newest_complete :
        (n d : ℕ)
        → Exists (λ x. (case_of x ≡ id) × (n ≤ key x + d)) xs
        → (a : A) × (latest key (filter (λ x. case_of x == id) xs) ≡ some a) × (n ≤ key a + d)
    newest_complete n d h =
        let (a, e, le) =
          latest_of_Exists (λ x. case_of x == id) key (n - d) xs
            (Exists-map (λ x k. ((eq_iff (case_of x) id).1 k.0, omega (arith, k.1))) xs h) in
        (a, e, omega (arith, le))

    some_sound :
        (a : A)
        → latest key (filter (λ x. case_of x == id) xs) ≡ some a
        → Exists (λ x. case_of x ≡ id) xs
    some_sound a e =
        Exists-map (λ x k. (eq_iff (case_of x) id).0 k.0) xs
          (Exists-latest (λ x. case_of x == id) key xs a e)

module _ (registry : Registry) (req : StateTransitionRequest) (at : ℕ) (db : Database) where
  IsProven-check :
      (f : Option ManualFallbackPackage)
      → is_applied (check_proof registry req at db f) ≡ true
      → IsProven req at db f
  IsProven-check none h = tt
  IsProven-check (some f) h = elim (Option-cases f.proof_bundle_artifact_id) [
    | inl p ↦ absurd (ground arith)
    | inr (a, p) ↦ (ground (arith, eq_iff f.proof_bundle_state "CONFIRMED"), (a, p))
  ]

  check_of_IsProven :
      (f : Option ManualFallbackPackage)
      → IsProven req at db f
      → check_proof registry req at db f ≡ apply_at at
  check_of_IsProven none h = refl
  check_of_IsProven (some f) h = ground (arith, eq_iff f.proof_bundle_state "CONFIRMED", h.0, h.1.1)

  compliance_sound :
      (r : StateTransitionResult)
      → compliance_branch registry req at db ≡ ok r
      → is_applied r ≡ true
      → Needs req at db Branch.compliance
  unfolding compliance_branch minus
  compliance_sound r e h =
      elim (Option-cases (
        latest (λ e. to_utc e.evaluated_at)
          (filter (λ e. e.case_id == req.case_id) db.compliance_evaluations))) [
            | inl q ↦ absurd (ground arith)
            | inr (a, q) ↦ (
              ground arith,
              newest_sound (λ e. e.case_id) req.case_id db.compliance_evaluations
                  (λ e. to_utc e.evaluated_at) at (days 30) a q (ground arith),
            )
          ]

  compliance_complete :
      Needs req at db Branch.compliance → compliance_branch registry req at db ≡ ok (apply_at at)
  unfolding compliance_branch minus
  compliance_complete (late, h) =
      let (a, q, le) =
        newest_complete (λ e. e.case_id) req.case_id db.compliance_evaluations
          (λ e. to_utc e.evaluated_at) at (days 30) h in
      ground arith

  incentives_sound :
      (r : StateTransitionResult)
      → incentives_branch registry req at db ≡ ok r
      → is_applied r ≡ true
      → Needs req at db Branch.incentives
  unfolding incentives_branch minus
  incentives_sound r e h =
      elim (Option-cases (
        latest (λ a. to_utc a.assessed_at)
          (filter (λ a. a.case_id == req.case_id) db.incentive_assessments))) [
            | inl q ↦ absurd (ground arith)
            | inr (a, q) ↦ (
              ground arith,
              newest_sound (λ e. e.case_id) req.case_id db.incentive_assessments
                  (λ a. to_utc a.assessed_at) at (days 3) a q (ground arith),
            )
          ]

  incentives_complete :
      Needs req at db Branch.incentives → incentives_branch registry req at db ≡ ok (apply_at at)
  unfolding incentives_branch minus
  incentives_complete (late, h) =
      let (a, q, le) =
        newest_complete (λ e. e.case_id) req.case_id db.incentive_assessments
          (λ a. to_utc a.assessed_at) at (days 3) h in
      ground arith

  intake_sound :
      (r : StateTransitionResult)
      → intake_branch registry req at db ≡ ok r
      → is_applied r ≡ true
      → Needs req at db Branch.intake
  unfolding intake_branch
  intake_sound r e h = elim (count_cases (filter (λ q. q.case_id == req.case_id) db.projects)) [
    | inl q ↦ absurd (ground arith)
    | inr (inl (p, q)) ↦ (p, q)
    | inr (inr (p, p', rest, q)) ↦ absurd (ground arith)
  ]

  -- A branch that applies its transition has its requirements met.
  pub run_branch_sound :
      (b : Branch) (r : StateTransitionResult)
      → run_branch registry req at db b ≡ ok r
      → is_applied r ≡ true
      → Needs req at db b
  unfolding run_branch
  run_branch_sound Branch.enter_hold r e h = tt
  run_branch_sound Branch.hold_to_submitted r e h = absurd (ground arith)
  run_branch_sound Branch.leave_hold r e h = tt
  run_branch_sound Branch.review_gate r e h = review_branch_sound registry req at db (ground arith)
  run_branch_sound Branch.intake r e h = intake_sound r e h
  run_branch_sound Branch.jurisdiction r e h =
      found_sound (λ x. x.case_id) req.case_id db.jurisdiction_resolutions
        (unfold jurisdiction_branch in ground arith)
  run_branch_sound Branch.requirements r e h =
      elim (Option-cases (find (λ s. s.case_id == req.case_id) db.requirement_sets)) [
        | inl q ↦ absurd (unfold requirements_branch in ground arith)
        | inr (s, q) ↦
            (s, q, unfold requirements_branch in ground (arith, eq_iff s.freshness_state "FRESH"))
      ]
  run_branch_sound Branch.compliance r e h = compliance_sound r e h
  run_branch_sound Branch.incentives r e h = incentives_sound r e h
  run_branch_sound Branch.document r e h =
      found_sound (λ x. x.case_id) req.case_id db.submission_packages
        (unfold document_branch in ground arith)
  run_branch_sound Branch.manual_submission r e h =
      elim (Option-cases (
        latest (λ f. f.created_at)
          (filter (λ f. f.case_id == req.case_id) db.manual_fallback_packages))) [
            | inl q ↦ absurd (unfold manual_submission_branch in ground arith)
            | inr (f, q) ↦
                some_sound (λ f. f.case_id) req.case_id db.manual_fallback_packages
                  (λ f. f.created_at) f q
          ]
  run_branch_sound Branch.submission r e h =
      IsProven-check
        (latest (λ f. f.created_at)
          (filter (λ f. f.case_id == req.case_id) db.manual_fallback_packages))
        (unfold submission_branch in ground arith)
  run_branch_sound Branch.comment_review r e h = tt
  run_branch_sound Branch.correction r e h = tt
  run_branch_sound Branch.resubmission r e h = tt
  run_branch_sound Branch.resubmission_document r e h = tt
  run_branch_sound Branch.unknown r e h = absurd (ground arith)

  -- A branch whose requirements are met applies its transition.
  pub run_branch_complete :
      (b : Branch) → Needs req at db b → run_branch registry req at db b ≡ ok (apply_at at)
  unfolding run_branch
  run_branch_complete Branch.enter_hold n = refl
  run_branch_complete Branch.hold_to_submitted n = absurd n
  run_branch_complete Branch.leave_hold n = refl
  run_branch_complete Branch.review_gate (r, c) = cc (review_branch_complete registry req at db r c)
  run_branch_complete Branch.intake (p, q) = unfold intake_branch in ground (arith, q)
  run_branch_complete Branch.jurisdiction n =
      unfold jurisdiction_branch in
      ground (arith, found_complete (λ x. x.case_id) req.case_id db.jurisdiction_resolutions n)
  run_branch_complete Branch.requirements (s, q, fresh) =
      unfold requirements_branch in ground (arith, q, eq_iff s.freshness_state "FRESH")
  run_branch_complete Branch.compliance n = compliance_complete n
  run_branch_complete Branch.incentives n = incentives_complete n
  run_branch_complete Branch.document n =
      unfold document_branch in
      ground (arith, found_complete (λ x. x.case_id) req.case_id db.submission_packages n)
  run_branch_complete Branch.manual_submission n =
      let (f, q, le) =
        newest_complete (λ f. f.case_id) req.case_id db.manual_fallback_packages (λ f. f.created_at)
          0 0 (Exists-map (λ f k. (k, omega arith)) db.manual_fallback_packages n) in
      unfold manual_submission_branch in ground (arith, q)
  run_branch_complete Branch.submission n =
      unfold submission_branch in
      ap ok (
        check_of_IsProven
          (latest (λ f. f.created_at)
            (filter (λ f. f.case_id == req.case_id) db.manual_fallback_packages))
          n)
  run_branch_complete Branch.comment_review n = refl
  run_branch_complete Branch.correction n = refl
  run_branch_complete Branch.resubmission n = refl
  run_branch_complete Branch.resubmission_document n = refl
  run_branch_complete Branch.unknown n = absurd n
