-- ===== src/Model.antt =====
-- lib/model: what a folder keeps while it pulls files.
pub mod JobQueue
pub mod Reorder
pub mod Downloads
pub mod Puller
pub mod SentDownloads
pub mod Batch
pub mod IndexHandler
