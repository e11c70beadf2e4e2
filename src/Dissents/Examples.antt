-- ===== src/Dissents/Examples.antt =====
-- The dissent of the sample decision.
