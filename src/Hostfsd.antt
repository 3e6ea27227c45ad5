-- ===== src/Hostfsd.antt =====
-- tools/hostfsd: the host end of the link that serves a folder as the guest's drive.
pub mod Proto
pub mod Frame
pub mod Names
pub mod Host
pub mod Config
pub mod Path
pub mod Daemon
pub mod Files
pub mod Dirs
pub mod Tree
pub mod Serve
pub mod Session
pub mod Startup
