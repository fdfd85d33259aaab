-- ===== src/Posix.antt =====
-- The kernel's processes, jobs and users: src/posix.
pub mod Job
