-- ===== src/Evidence.antt =====
-- Evidence processing (app/services/evidence).
pub mod Chunks
pub mod Ranking
pub mod Selector
pub mod Vectors
