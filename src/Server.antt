-- ===== src/Server.antt =====
-- The server of a container that was just started: its health, the wait until it is ready, and the
-- launch around them.
pub mod Health
pub mod Waiter
