-- ===== src/Ipc.antt =====
-- The kernel's inter-process communication: src/ipc and the system calls on handles.
pub mod Object
pub mod Handle
pub mod Port
pub mod Channel
pub mod Syscall
mod Tests
