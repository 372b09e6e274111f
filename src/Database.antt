-- ===== src/Database.antt =====
-- internal/db: the files that the devices have announced, and which version of each is the global one.
pub mod Rows
pub mod Global
