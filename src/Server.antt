-- ===== src/Server.antt =====
-- internal/server and internal/lock: the deployment lock.
pub mod Store
pub mod Lockdown
pub mod Handlers
pub mod Access
pub mod Reaper
