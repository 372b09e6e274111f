-- ===== src/Protocol.antt =====
-- lib/protocol: what the peers exchange, and how they compare versions of files.
pub mod Vector
pub mod DeviceId
pub mod Flags
pub mod FileInfo
pub mod Connection
