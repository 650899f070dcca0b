-- ===== src/Gitea.antt =====
-- The client of the Gitea server: internal/gitea.
pub mod PullRequest
