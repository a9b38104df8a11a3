-- ===== src/Executor.antt =====
-- packages/blue-tanuki: the executor of commands (executor.ts) and its tool registry (tools/registry.ts).
pub mod Types
pub mod Registry
pub mod Run
pub mod Gate
pub mod Policy
pub mod History
mod Tests
