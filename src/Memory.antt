-- ===== src/Memory.antt =====
-- The memory services (app/services/memory).
pub mod ActionStatus
