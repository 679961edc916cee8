-- ===== src/Friend.antt =====
-- Friend sharing (internal/friendtogether): consent grants and their projections.
pub mod Refusal
pub mod Types
pub mod Identity
pub mod Grant
pub mod Projection
pub mod Operations
pub mod Normal
pub mod Authority
pub mod Change
pub mod Evolution
pub mod Invariant
pub mod Trace
pub mod Tests
pub mod Lifetime
pub mod Disclosure
