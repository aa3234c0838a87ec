-- ===== src/Generators.antt =====
-- The generators of pkg/generators.
pub mod Interface
pub mod Transform
pub mod Nested
pub mod Matrix
pub mod Merge
pub mod Cluster
pub mod RequeueAfter
pub mod Prefixed
pub mod Elements
pub mod Levels
pub mod SecretRef
pub mod ScmProviders
pub mod PullRequests
pub mod DuckType
pub mod Git
