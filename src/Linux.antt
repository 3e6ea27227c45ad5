-- ===== src/Linux.antt =====
-- tools/linux: the tools that run beside the emulator on Linux.
pub mod Monitor
pub mod Shot
