-- ===== src/Examples.antt =====
-- Runs at concrete inputs: the theorems applied, and a few tests.
mod Wire
mod Requests
mod Service
mod Fleet
mod Places
mod Desk
mod Yard
mod Learning
