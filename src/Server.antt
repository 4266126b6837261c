-- ===== src/Server.antt =====
-- fleet_telemetry/server.py: the telemetry server.
pub mod State
pub mod Listeners
pub mod Frames
pub mod Sessions
pub mod Registry
pub mod Access
pub mod Raises
pub mod Safety
pub mod Acks
pub mod Delivered
pub mod Conversation
pub mod Stopping
pub mod Interleaving
pub mod Watching
pub mod Watched
