-- ===== src/Common.antt =====
-- libs/common/src.
pub mod Batches
