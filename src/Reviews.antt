-- ===== src/Reviews.antt =====
-- The reviewer API, src/sps/api/routes/reviews.py: the independence policy (`Independence`) and the
-- endpoint that records a decision (`Decisions`).
pub mod Independence
pub mod Decisions
pub mod Persisted
