-- ===== src/Stop.antt =====
-- src/commands/container_cleanup.rs, stop.rs and stop/cleanup.rs: the removal of containers.
pub mod Cleanup
pub mod Command
pub mod Whole
