-- ===== src/Controller.antt =====
-- packages/hds-brain/src/controller.ts: HDSUpperController.
pub mod Types
pub mod Command
pub mod Prepare
pub mod Machine
pub mod Resume
pub mod Events
pub mod Emission
pub mod FailSafe
pub mod Invariant
pub mod Reachable
pub mod Tests
