-- ===== src/Argocd.antt =====
-- internal/argocd: the controller that accepts deployments, the monitor that follows their rollouts,
-- and the replica's claims.
pub mod Argo
pub mod Guard
pub mod Batcher
pub mod Overrides
pub mod BatchWrite
pub mod Errors
pub mod Window
pub mod World
pub mod Poll
pub mod Updater
pub mod WriteBack
