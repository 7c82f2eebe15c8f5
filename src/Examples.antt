-- ===== src/Examples.antt =====
-- The theorems at concrete inputs: a host, containers and commands as the repository's tests have
-- them.
pub mod Data
pub mod Workspaces
mod Sessions
pub mod Targets
mod Commands
mod Responses
mod Locks
mod Servers
pub mod Launches
mod Images
mod Starts
mod Restarts
