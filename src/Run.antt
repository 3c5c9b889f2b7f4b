-- ===== src/Run.antt =====
-- cimba/experiments: running the trials of a design.
pub mod Chunks
pub mod Whole
pub mod Single
pub mod Extension
pub mod Observation
