-- ===== src/Executor.antt =====
-- The research executor (app/services/executor).
pub mod Enums
pub mod Payloads
pub mod State
pub mod Support
pub mod Collaborators
pub mod RetrievalHistory
pub mod Coverage
pub mod Assessor
pub mod Acquirer
pub mod Outcome
pub mod Findings
pub mod StageResult
pub mod Loop
