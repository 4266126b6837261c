-- ===== src/Certs.antt =====
-- fleet_telemetry/certs.py: the server's certificates.
pub mod Disk
pub mod Issue
pub mod Credentials
pub mod Keeps
pub mod Trust
pub mod Writes
pub mod Private
pub mod Works
pub mod Ready
pub mod Ensure
pub mod Stale
