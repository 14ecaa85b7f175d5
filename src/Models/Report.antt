-- ===== src/Models/Report.antt =====
-- internal/models/argo.go: the texts of a failure report.
pub mod Lines
pub mod Revisions
pub mod Sync
pub mod Failure
pub mod Reported
