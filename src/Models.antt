-- ===== src/Models.antt =====
-- internal/models: tasks and their statuses, ArgoCD's application, and what is decided and reported
-- of a rollout.
pub mod Status
pub mod Task
pub mod Application
pub mod Rollout
pub mod Report
pub mod Gitops
pub mod Managed
