-- ===== src/Guard.antt =====
-- The transition guard `apply_state_transition` of
-- src/sps/workflows/permit_case/activities_impl.py: which branch a transition takes (`Branch`),
-- what each branch requires (`Gates`), and the transaction round them (`Apply`).
pub mod Branch
pub mod Gates
pub mod Spec
pub mod Apply
