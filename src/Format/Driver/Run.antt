-- ===== src/Format/Driver/Run.antt =====
-- The driver computes the root of the data blocks, and leaves the data alone.
pub mod Levels
pub mod Format
