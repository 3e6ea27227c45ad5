-- ===== src/Win.antt =====
-- tools/win: what the Windows edition settles before it starts QEMU.
pub mod Network
pub mod Drives
pub mod Resolution
pub mod Guest
pub mod Prepare
pub mod Profile
pub mod Launcher
