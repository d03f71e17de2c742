-- ===== src/Userns.antt =====
-- src/boxmunge/userns: the migration to user-namespace remapping, part by part.
pub mod Shift
pub mod Offset
pub mod Volumes
pub mod Journal
