-- ===== src/Schedule.antt =====
-- apps/gateway/src: the schedules that are created at runtime (runtime_schedule.ts) and the scheduler that
-- fires them (cron_channel.ts).
pub mod Types
pub mod Args
pub mod Cron
pub mod Manager
pub mod Prepare
pub mod Approve
pub mod Listing
pub mod Consistent
pub mod Proposal
pub mod Invariant
pub mod Rejection
pub mod Effects
pub mod Activation
pub mod Request
pub mod Reachable
pub mod Fire
pub mod Authority
pub mod Decided
mod Tests
