-- ===== src/EndToEnd.antt =====
-- examples/end_to_end.py: the settings from the environment, the body of the Fleet API's
-- `fleet_telemetry_config`, the push of it and the poll until the vehicle has it.
pub mod Settings
pub mod Config
pub mod Push
pub mod Run
pub mod Polling
pub mod Valid
pub mod Pushed
pub mod Serve
pub mod Printing
pub mod Ended
pub mod Serves
