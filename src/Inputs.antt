-- ===== src/Inputs.antt =====
-- cimba/inputs: sources of input values.
pub mod Sources
pub mod Bootstrap
