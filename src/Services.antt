-- ===== src/Services.antt =====
-- The services of pkg/services that the generators ask.
pub mod ScmProvider
pub mod Repos
pub mod Pages
pub mod PullRequest
