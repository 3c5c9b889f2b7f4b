-- ===== src/Schema.antt =====
-- cimba/schema: the logical description of model classes that the other parts read.
pub mod Types
pub mod Scalars
pub mod Enums
pub mod Signatures
pub mod Conversion
pub mod Assembly
pub mod Slots
pub mod Classes
pub mod Fields
