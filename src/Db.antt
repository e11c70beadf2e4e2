-- ===== src/Db.antt =====
-- The Postgres tables, src/sps/db/models_*.py, as one record of lists of rows.
mod Cases
mod Reviewing
mod Controls
mod Submission
mod Artifacts
pub mod Samples
mod Tables
pub use Cases.*
pub use Reviewing.*
pub use Controls.*
pub use Submission.*
pub use Artifacts.*
pub use Tables.*
