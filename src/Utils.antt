-- ===== src/Utils.antt =====
-- The helpers of pkg/utils.
pub mod Combine
pub mod Text
pub mod Policy
pub mod Clusters
pub mod CreateOrUpdate
pub mod Regexp
pub mod Webhook
pub mod Chars
pub mod Json
pub mod Render
pub mod SortTexts
pub mod Paths
pub mod Keys
