-- ===== src/Automation.antt =====
-- Automation rules: src/automation.
pub mod Condition
pub mod Engine
pub mod Executor
pub mod Dispatch
pub mod Timing
