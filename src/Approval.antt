-- ===== src/Approval.antt =====
-- packages/hds-brain/src/approval_policy.ts and approval_store.ts: the approval gate.
pub mod Types
pub mod Operation
pub mod Grants
pub mod Scope
pub mod Evaluate
pub mod Covers
pub mod Store
pub mod Review
pub mod Classify
mod Tests
