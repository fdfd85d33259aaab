-- ===== src/Proto.antt =====
-- The messages of the user-space servers: user/vfs-proto and user/driver-abi.
pub mod Fields
pub mod Vfs
pub mod Process
pub mod Driver
mod Tests
