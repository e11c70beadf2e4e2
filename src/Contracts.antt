-- ===== src/Contracts.antt =====
-- The workflow contracts, src/sps/workflows/permit_case/contracts.py.
pub mod Samples
pub mod CaseState
pub mod Enums
pub mod Signals
pub mod Transition
