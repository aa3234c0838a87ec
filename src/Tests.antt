-- ===== src/Tests.antt =====
-- Concrete runs of the model, and the theorems at concrete inputs.
pub mod Sets
pub mod Store
pub mod Cluster
pub mod Events
pub mod Combined
pub mod Sources
pub mod Services
pub mod Providers
pub mod Rendering
