-- ===== src/Approval.antt =====
-- The approval workflow for outbound messages: daemon/src/comms/approval-gate.ts, and the channel
-- router of daemon/src/comms/channel-router.ts that asks the gate.
pub mod Gate
pub mod Router
mod Samples
