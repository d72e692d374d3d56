-- ===== src/Client.antt =====
-- The state machine of src/thingsboard.c.
pub mod Start
pub mod Api
pub mod Deliver
pub mod Settled
pub mod Plugged
pub mod Watching
pub mod Moved
