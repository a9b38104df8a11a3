-- ===== src/Policy.antt =====
-- packages/hds-brain/src/policy.ts, commit.ts and model.ts: the axes of a policy are scored by
-- detectors, and the scores decide.
pub mod Types
pub mod Registry
pub mod Scoring
pub mod Decide
pub mod Validate
pub mod Laws
pub mod Scored
pub mod Tests
