-- ===== src/Process.antt =====
-- packages/hds-brain/src/process.ts and frame.ts: who acts, in which process, with which limits.
pub mod Types
pub mod Actor
pub mod Definition
pub mod Frame
pub mod Laws
mod Tests
