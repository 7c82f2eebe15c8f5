-- ===== src/Preflight.antt =====
-- src/preflight and src/runtime/host_state.rs: what a launch needs of the host, and the mounts that it
-- makes of it.
pub mod HostState
pub mod Snapshot
pub mod Check
