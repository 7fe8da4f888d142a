-- ===== src/Ftpq/Alike.antt =====
-- The commands that `ftpq` has in common with `ftps` do the same.
pub mod Files
pub mod Control
pub mod Transfer
pub mod Lines
