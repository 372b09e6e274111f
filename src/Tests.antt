-- ===== src/Tests.antt =====
-- Runs of the models at concrete inputs, and the theorems at inputs that meet their hypotheses.
pub mod Vectors
pub mod Queues
pub mod Deltas
pub mod Pulls
pub mod Devices
pub mod Progress
pub mod Files
pub mod Pullers
pub mod Sent
pub mod Indexes
pub mod Versions
pub mod Messages
pub mod Watching
