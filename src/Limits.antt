-- ===== src/Limits.antt =====
-- The three rate limiters of the daemon: daemon/src/core/rate-limiter.ts,
-- daemon/src/api/rate-limit.ts and daemon/src/core/access-control.ts. Time is an argument.
pub mod Fixed
pub mod Sliding
mod Samples
