-- ===== src/Tests.antt =====
-- Small runs of the model, and the theorems at concrete data.
pub mod Runtimes
pub mod Keys
pub mod Wire
mod Framing
mod Watching
mod Interleaving
mod Dispatching
mod Serving
mod Parsing
pub mod Certifying
mod Pushing
mod Printing
