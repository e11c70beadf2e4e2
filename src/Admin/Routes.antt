-- ===== src/Admin/Routes.antt =====
-- The routes of the three workflows, as instances.
use sps_v.Auth.{Identity}
use sps_v.Common.{ℕ, String}
use sps_v.Admin.{
  Store, Reply, IntentCreateRequest, ReviewDecisionRequest, portal_support, source_rules,
  incentive_programs, create_intent, record_review, apply_intent,
}

module _ {Json : Type 0} where
  abbrev pub create_admin_portal_support_intent :
      Identity
      → IntentCreateRequest (String × Json)
      → ℕ
      → Store (String × Json)
      → Reply (String × Json) × Store (String × Json)
  create_admin_portal_support_intent = create_intent (portal_support Json)

  abbrev pub record_admin_portal_support_review :
      Identity
      → ReviewDecisionRequest
      → ℕ
      → Store (String × Json)
      → Reply (String × Json) × Store (String × Json)
  record_admin_portal_support_review = record_review (portal_support Json)

  abbrev pub apply_admin_portal_support_intent :
      Identity
      → (new_id intent_id : String) → ℕ
      → Store (String × Json)
      → Reply (String × Json) × Store (String × Json)
  apply_admin_portal_support_intent = apply_intent (portal_support Json)

  abbrev pub create_admin_source_rule_intent :
      Identity → IntentCreateRequest Json → ℕ → Store Json → Reply Json × Store Json
  create_admin_source_rule_intent = create_intent (source_rules Json)

  abbrev pub record_admin_source_rule_review :
      Identity → ReviewDecisionRequest → ℕ → Store Json → Reply Json × Store Json
  record_admin_source_rule_review = record_review (source_rules Json)

  abbrev pub apply_admin_source_rule_intent :
      Identity → (new_id intent_id : String) → ℕ → Store Json → Reply Json × Store Json
  apply_admin_source_rule_intent = apply_intent (source_rules Json)

  abbrev pub create_admin_incentive_program_intent :
      Identity → IntentCreateRequest Json → ℕ → Store Json → Reply Json × Store Json
  create_admin_incentive_program_intent = create_intent (incentive_programs Json)

  abbrev pub record_admin_incentive_program_review :
      Identity → ReviewDecisionRequest → ℕ → Store Json → Reply Json × Store Json
  record_admin_incentive_program_review = record_review (incentive_programs Json)

  abbrev pub apply_admin_incentive_program_intent :
      Identity → (new_id intent_id : String) → ℕ → Store Json → Reply Json × Store Json
  apply_admin_incentive_program_intent = apply_intent (incentive_programs Json)
