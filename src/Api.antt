-- ===== src/Api.antt =====
-- The API types of api/v1alpha1/applicationset_types.go, and the operations that they carry.
pub mod Template
pub mod Generator
pub mod Conversion
pub mod Condition
pub mod ApplicationSet
