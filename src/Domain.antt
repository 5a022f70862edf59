-- ===== src/Domain.antt =====
-- The shared domain models (app/domain): enumerations, JSON-like values, retrieval outputs, and the
-- requests and results that the services hand to one another.
pub mod Enums
pub mod Value
pub mod Retrieval
pub mod Families
pub mod Requests
pub mod Evidence
pub mod ResearchStage
