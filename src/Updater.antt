-- ===== src/Updater.antt =====
-- internal/updater/updater.go: the override file of an application in its GitOps repository.
pub mod Merge
pub mod Paths
pub mod Commit
pub mod Cache
