-- ===== src/Memory.antt =====
-- packages/hds-brain/src: what a request reads of the memory (memory_trace.ts, f_reference.ts).
pub mod Reference
pub mod Trace
pub mod Laws
mod Tests
