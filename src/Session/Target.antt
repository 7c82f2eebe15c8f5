-- ===== src/Session/Target.antt =====
-- src/session/target: what the target of a command stands for.
pub mod Input
pub mod Selected
pub mod Stop
pub mod Restart
pub mod Health
