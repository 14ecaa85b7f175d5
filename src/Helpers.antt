-- ===== src/Helpers.antt =====
-- internal/helpers: image references (`Images`) and durations (`Duration`).
pub mod Images
pub mod Duration
