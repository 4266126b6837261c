-- ===== src/Dispatch.antt =====
-- fleet_telemetry/dispatch.py: listeners, record streams and the dispatch of a record to both.
pub mod State
pub mod Streams
pub mod Loop
pub mod Consume
pub mod Pending
pub mod History
pub mod Consuming
pub mod Held
pub mod Lossless
pub mod Fanout
pub mod Ids
pub mod Turns
pub mod Invariant
pub mod Reach
pub mod Delivery
pub mod Isolation
pub mod Unsubscribe
pub mod Closing
pub mod Frozen
pub mod Matching
