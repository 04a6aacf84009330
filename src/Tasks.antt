-- ===== src/Tasks.antt =====
-- app/services: the life of a user task.
pub mod Reply
pub mod Sequences
pub mod Create
pub mod Pickup
pub mod Templates
