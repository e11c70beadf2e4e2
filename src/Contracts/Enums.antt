-- ===== src/Contracts/Enums.antt =====
-- The enumerations of src/sps/workflows/permit_case/contracts.py and the event names and denial
-- reasons of src/sps/workflows/permit_case/activities_impl.py, one constructor for each text.

pub data ReviewDecisionOutcome : Type 0 where
  accept accept_with_dissent block : ReviewDecisionOutcome

pub data ReviewerIndependenceStatus : Type 0 where
  pass warning escalation_required blocked override_applied : ReviewerIndependenceStatus

pub data ExternalStatusClass : Type 0 where
  received_unconfirmed received_confirmed in_review comment_issued : ExternalStatusClass
  resubmission_requested approval_reported approval_confirmed : ExternalStatusClass
  approval_pending_inspection approval_final inspection_scheduled : ExternalStatusClass
  inspection_passed inspection_failed rejection_reported withdrawn_reported : ExternalStatusClass
  closed_reported unknown_external_status contradictory_external_status : ExternalStatusClass

pub data ExternalStatusConfidence : Type 0 where
  high medium low no_confidence : ExternalStatusConfidence

pub data ActorType : Type 0 where
  planner specialist_worker reviewer operator release_manager system_guard : ActorType

pub data SubmissionAdapterOutcome : Type 0 where
  success unsupported_workflow failed : SubmissionAdapterOutcome

pub data EventType : Type 0 where
  case_state_changed state_transition_denied approval_gate_denied : EventType
  contradiction_advance_denied override_denied intake_project_denied : EventType
  jurisdiction_required_denied requirements_required_denied : EventType
  requirements_freshness_denied compliance_required_denied : EventType
  compliance_freshness_denied incentives_required_denied : EventType
  incentives_freshness_denied document_package_required_denied : EventType
  manual_submission_required_denied proof_bundle_required_denied : EventType

pub data DenialReason : Type 0 where
  ledger_payload_missing from_state_mismatch forbidden_transition : DenialReason
  unknown_transition review_decision_required : DenialReason
  blocking_contradiction_unresolved missing expired out_of_scope : DenialReason
  project_required jurisdiction_resolution_required requirement_set_required : DenialReason
  requirement_set_stale compliance_evaluation_required compliance_evaluation_stale : DenialReason
  incentive_assessment_required incentive_assessment_stale : DenialReason
  submission_package_required manual_fallback_required proof_bundle_required : DenialReason
