-- ===== src/Db/Tables.antt =====
-- The tables together. A table lists its rows in the order of insertion; where the code sorts no
-- rows, or rows tie, Postgres promises no order, and this is the one taken.
use sps_v.Common.{List}
use sps_v.Db.Cases.{
  PermitCase, Project, JurisdictionResolution, RequirementSet, ComplianceEvaluation,
  IncentiveAssessment,
}
use sps_v.Db.Reviewing.{
  ReviewDecision, ContradictionArtifact, DissentArtifact, CaseTransitionLedger,
}
use sps_v.Db.Controls.{EmergencyRecord, OverrideArtifact}
use sps_v.Db.Submission.{
  SubmissionPackage, SubmissionAttempt, DocumentArtifact, ExternalStatusEvent,
  ManualFallbackPackage, CorrectionTask, ResubmissionPackage, ApprovalRecord, InspectionMilestone,
}
use sps_v.Db.Artifacts.{
  AuditEvent, EvidenceArtifact, LegalHold, LegalHoldBinding, ReleaseBundle, ReleaseArtifact,
}

pub record Database : Type 0 where
  pub permit_cases : List PermitCase
  pub projects : List Project
  pub jurisdiction_resolutions : List JurisdictionResolution
  pub requirement_sets : List RequirementSet
  pub compliance_evaluations : List ComplianceEvaluation
  pub incentive_assessments : List IncentiveAssessment
  pub review_decisions : List ReviewDecision
  pub contradiction_artifacts : List ContradictionArtifact
  pub dissent_artifacts : List DissentArtifact
  pub case_transition_ledger : List CaseTransitionLedger
  pub emergency_records : List EmergencyRecord
  pub override_artifacts : List OverrideArtifact
  pub submission_packages : List SubmissionPackage
  pub document_artifacts : List DocumentArtifact
  pub external_status_events : List ExternalStatusEvent
  pub submission_attempts : List SubmissionAttempt
  pub manual_fallback_packages : List ManualFallbackPackage
  pub correction_tasks : List CorrectionTask
  pub resubmission_packages : List ResubmissionPackage
  pub approval_records : List ApprovalRecord
  pub inspection_milestones : List InspectionMilestone
  pub audit_events : List AuditEvent
  pub evidence_artifacts : List EvidenceArtifact
  pub legal_holds : List LegalHold
  pub legal_hold_bindings : List LegalHoldBinding
  pub release_bundles : List ReleaseBundle
  pub release_artifacts : List ReleaseArtifact
