-- ===== src/Contracts/CaseState.antt =====
-- `CaseState` of src/sps/workflows/permit_case/contracts.py, with its `value`s as text.
use sps_v.Common.{
  ℕ, String, ◌≡◌, refl, ap, ◌∙◌, sym, Bool, true, ◌↔◌, Comparable, nat_beq, nat_beq_iff,
  if◌then◌else◌,
}

pub data CaseState : Type 0 where
  draft intake_pending intake_complete jurisdiction_pending jurisdiction_complete : CaseState
  research_pending research_complete compliance_pending compliance_complete : CaseState
  incentives_pending incentives_complete document_pending document_complete : CaseState
  review_pending blocked approved_for_submission submission_pending submitted : CaseState
  comment_review_pending correction_pending resubmission_pending approved closed : CaseState
  cancelled manual_submission_required emergency_hold rolled_back : CaseState

-- The position in the enumeration, by which two members are compared.
abbrev ordinal : CaseState → ℕ
ordinal draft = 0
ordinal intake_pending = 1
ordinal intake_complete = 2
ordinal jurisdiction_pending = 3
ordinal jurisdiction_complete = 4
ordinal research_pending = 5
ordinal research_complete = 6
ordinal compliance_pending = 7
ordinal compliance_complete = 8
ordinal incentives_pending = 9
ordinal incentives_complete = 10
ordinal document_pending = 11
ordinal document_complete = 12
ordinal review_pending = 13
ordinal blocked = 14
ordinal approved_for_submission = 15
ordinal submission_pending = 16
ordinal submitted = 17
ordinal comment_review_pending = 18
ordinal correction_pending = 19
ordinal resubmission_pending = 20
ordinal approved = 21
ordinal closed = 22
ordinal cancelled = 23
ordinal manual_submission_required = 24
ordinal emergency_hold = 25
ordinal rolled_back = 26

abbrev member : ℕ → CaseState
member n =
    if nat_beq n 0
    then draft
    else if nat_beq n 1
    then intake_pending
    else if nat_beq n 2
    then intake_complete
    else if nat_beq n 3
    then jurisdiction_pending
    else if nat_beq n 4
    then jurisdiction_complete
    else if nat_beq n 5
    then research_pending
    else if nat_beq n 6
    then research_complete
    else if nat_beq n 7
    then compliance_pending
    else if nat_beq n 8
    then compliance_complete
    else if nat_beq n 9
    then incentives_pending
    else if nat_beq n 10
    then incentives_complete
    else if nat_beq n 11
    then document_pending
    else if nat_beq n 12
    then document_complete
    else if nat_beq n 13
    then review_pending
    else if nat_beq n 14
    then blocked
    else if nat_beq n 15
    then approved_for_submission
    else if nat_beq n 16
    then submission_pending
    else if nat_beq n 17
    then submitted
    else if nat_beq n 18
    then comment_review_pending
    else if nat_beq n 19
    then correction_pending
    else if nat_beq n 20
    then resubmission_pending
    else if nat_beq n 21
    then approved
    else if nat_beq n 22
    then closed
    else if nat_beq n 23
    then cancelled
    else if nat_beq n 24
    then manual_submission_required
    else if nat_beq n 25
    then emergency_hold
    else rolled_back

member-ordinal : (s : CaseState) → member (ordinal s) ≡ s
member-ordinal draft = refl
member-ordinal _ = refl

abbrev pub state_beq : CaseState → CaseState → Bool
state_beq a b = nat_beq (ordinal a) (ordinal b)

pub state_beq_iff : (a b : CaseState) → (state_beq a b ≡ true) ↔ (a ≡ b)
state_beq_iff a b = (
  λ h.
      sym (member-ordinal a)
      ∙ ap member ((nat_beq_iff (ordinal a) (ordinal b)).0 h)
      ∙ member-ordinal b,
  λ e. (nat_beq_iff (ordinal a) (ordinal b)).1 (ap ordinal e),
)

instance abbrev pub state_eq : Comparable CaseState
state_eq = record { equals = state_beq; equals_iff = state_beq_iff }

-- `CaseState.value`
unfoldable pub value : CaseState → String
value draft = "DRAFT"
value intake_pending = "INTAKE_PENDING"
value intake_complete = "INTAKE_COMPLETE"
value jurisdiction_pending = "JURISDICTION_PENDING"
value jurisdiction_complete = "JURISDICTION_COMPLETE"
value research_pending = "RESEARCH_PENDING"
value research_complete = "RESEARCH_COMPLETE"
value compliance_pending = "COMPLIANCE_PENDING"
value compliance_complete = "COMPLIANCE_COMPLETE"
value incentives_pending = "INCENTIVES_PENDING"
value incentives_complete = "INCENTIVES_COMPLETE"
value document_pending = "DOCUMENT_PENDING"
value document_complete = "DOCUMENT_COMPLETE"
value review_pending = "REVIEW_PENDING"
value blocked = "BLOCKED"
value approved_for_submission = "APPROVED_FOR_SUBMISSION"
value submission_pending = "SUBMISSION_PENDING"
value submitted = "SUBMITTED"
value comment_review_pending = "COMMENT_REVIEW_PENDING"
value correction_pending = "CORRECTION_PENDING"
value resubmission_pending = "RESUBMISSION_PENDING"
value approved = "APPROVED"
value closed = "CLOSED"
value cancelled = "CANCELLED"
value manual_submission_required = "MANUAL_SUBMISSION_REQUIRED"
value emergency_hold = "EMERGENCY_HOLD"
value rolled_back = "ROLLED_BACK"
