-- ===== src/Tests.antt =====
-- Runs of the helper of tools/hostfsd on a small host in memory, and of the launchers, the tools and
-- the settings on small machines.
pub mod Disk
pub mod Paths
pub mod Requests
pub mod Listings
pub mod Sessions
pub mod Starts
pub mod Networks
pub mod Mappings
pub mod Sizes
pub mod Handles
pub mod Shots
pub mod Launches
pub mod Guests
pub mod Profiles
pub mod Machines
pub mod Monitors
