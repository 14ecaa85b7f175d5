-- ===== src/State.antt =====
-- internal/state: the task store.
pub mod Lease
pub mod Supersede
pub mod Memory
pub mod Repository
pub mod Postgres
