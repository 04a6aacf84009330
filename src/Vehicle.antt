-- ===== src/Vehicle.antt =====
-- The vehicle's side of the services: what its heartbeat says, the frames that command it, and what
-- its reports change.
pub mod Memory
pub mod Frames
pub mod Reports
pub mod Camera
pub mod Heartbeat
