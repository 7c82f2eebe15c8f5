-- ===== src/Session.antt =====
-- src/session.rs: the sessions that agentbox discovers from Podman.
pub mod Record
pub mod Labels
pub mod Status
pub mod Discovery
pub mod Selection
pub mod Connectable
pub mod Restartable
pub mod Candidate
pub mod Collection
pub mod Target
pub mod Conflict
