-- ===== src/Clean.antt =====
-- src/commands/clean: the unused images, volumes and lock files that `agentbox clean` removes.
pub mod Scope
pub mod Image
pub mod Usage
pub mod Plan
pub mod Inventory
pub mod Apply
