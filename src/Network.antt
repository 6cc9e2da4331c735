-- ===== src/Network.antt =====
-- Retries of the network between agents.
pub mod Registration
pub mod Queue
pub mod Communities
mod Samples
