-- ===== src/ToolLayer.antt =====
-- The tool execution layer (app/services/tool_execution_layer): selection of a retrieval family,
-- evaluation of an execution outcome, and the service that drives one request through attempts.
pub mod Family
pub mod Completion
pub mod Selection
pub mod Service
