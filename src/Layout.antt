-- ===== src/Layout.antt =====
-- cimba/layout: native records and the trial image.
pub mod Record
pub mod Views
pub mod Image
pub mod Regions
