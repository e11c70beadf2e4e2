-- ===== src/Dissents/Reads.antt =====
-- The dissent of a decision can be read back.
use sps_v.Common.{string_eq}
