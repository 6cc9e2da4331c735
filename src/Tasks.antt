-- ===== src/Tasks.antt =====
-- daemon/src/core/task-state-machine.ts and the task routes of daemon/src/api/unified-tasks.ts.
pub mod Status
pub mod Row
pub mod Plan
pub mod Ending
pub mod Checked
pub mod Writes
pub mod Update
pub mod Requests
mod Samples
