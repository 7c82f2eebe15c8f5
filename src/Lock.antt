-- ===== src/Lock.antt =====
-- src/lock.rs: the lock files of workspaces, one for a git root, named by its digest.
pub mod Files
pub mod Protocol
