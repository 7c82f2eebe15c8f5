-- ===== src/Launch.antt =====
-- The launch of containers: what is asked of Podman, and what happens when it goes wrong.
pub mod Spec
pub mod Prepared
pub mod Args
pub mod Detached
pub mod Transient
pub mod Existing
pub mod Interrupted
