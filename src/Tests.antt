-- ===== src/Tests.antt =====
-- Runs of the theorems at concrete inputs, and the inputs.
mod Data
mod Selection
mod Completion
mod Service
mod Text
mod Executor
mod ExecutorData
mod ExecutorLoop
mod Memory
mod Evidence
mod Families
